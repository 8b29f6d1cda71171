-- ===== src/Replication/Manager.antt =====
-- src/server/replication/ReplicaManager.cpp: a replica's manager. A connection is a number, and
-- what is sent is kept in order; which connections are closed, and what the peers answer, are
-- arguments.
use twitter_clone.Prelude.{
  ℕ, Bool, true, ◌&&◌, ◌||◌, List, [], ◌∷◌, ◌++◌, map, Option, none, some, if◌then◌else◌, length,
  Bytes, bytes_eq, codes, to_int,
}
use twitter_clone.Profile.{◌>>=◌}
use twitter_clone.Packet.{c_str}
use twitter_clone.Packet.Types.{
  PacketType, new_replica, replicas, election, coordinator, update_profile, update_notification,
}
use twitter_clone.Profile.Manager.{ProfileManager, serialize_users}
use twitter_clone.Notification.Manager.{NotificationManager}
use twitter_clone.Notification.Manager.Texts
use twitter_clone.Replication.{
  ReplicaInfo, is_valid, serialize, deserialize, no_replica, state_payload, is_not_me, ranks_above,
}

-- A packet on a connection: its type and its payload.
pub record Message : Type 0 where
  pub conn : ℕ
  pub type : PacketType
  pub payload : Bytes

pub record ReplicaManager : Type 0 where
  pub info : ReplicaInfo
  pub is_leader : Bool
  pub profiles : ProfileManager
  pub notifications : NotificationManager
  -- m_replicasVector.
  pub replicas_vector : List (ℕ × ReplicaInfo)
  pub sent : List Message

-- A payload is handed over as a C string.
abbrev pub message : ℕ → PacketType → Bytes → Message
message conn type payload = record { conn = conn; type = type; payload = c_str payload }

abbrev pub post : List Message → ReplicaManager → ReplicaManager
post ms m = record m { sent = m.sent ++ ms }

-- extract_second.
unfoldable pub extract_second : List (ℕ × ReplicaInfo) → List ReplicaInfo
extract_second [] = []
extract_second ((conn, r) ∷ v) = r ∷ extract_second v

unfoldable pub extract_first : List (ℕ × ReplicaInfo) → List ℕ
extract_first [] = []
extract_first ((conn, r) ∷ v) = conn ∷ extract_first v

unfoldable pub remove_closed : (ℕ → Bool) → List (ℕ × ReplicaInfo) → List (ℕ × ReplicaInfo)
remove_closed is_closed [] = []
remove_closed is_closed ((conn, r) ∷ v) =
    let rest = remove_closed is_closed v in if is_closed conn then rest else (conn, r) ∷ rest

unfoldable pub remove_closed_connections : (ℕ → Bool) → ReplicaManager → ReplicaManager
remove_closed_connections is_closed m = record m {
  replicas_vector = remove_closed is_closed m.replicas_vector;
}

unfoldable pub send_hello : ℕ → ReplicaInfo → Message
send_hello conn info = message conn new_replica (serialize info)

-- receiveHello, of the packet that was received, if any: its type and its payload.
abbrev pub hello_of : PacketType → Bytes → Option ReplicaInfo
hello_of new_replica payload = deserialize payload
hello_of _ payload = some no_replica

unfoldable pub receive_hello : Option (PacketType × Bytes) → Option ReplicaInfo
receive_hello none = some no_replica
receive_hello (some (type, payload)) = hello_of type payload

-- sendState: the new replica gets the number of the others as its id.
unfoldable pub send_state : ℕ → ReplicaInfo → List ReplicaInfo → ReplicaInfo × Message
send_state conn r infos =
    let id = to_int (length infos) in
    (record r { id = id }, message conn replicas (state_payload id infos))

abbrev pub push_back : ℕ → ReplicaInfo → ReplicaManager → ReplicaManager
push_back conn r m = record m { replicas_vector = m.replicas_vector ++ (conn, r) ∷ [] }

unfoldable pub welcome : ℕ → ReplicaInfo → ReplicaManager → ReplicaManager
welcome conn r m =
    let (r', state) = send_state conn r (extract_second m.replicas_vector) in
    let updates =
      message conn update_profile (serialize_users m.profiles.users)
      ∷ message conn update_notification (Texts.serialize m.notifications)
      ∷ [] in
    push_back conn r' (post (state ∷ updates) m)

-- answerStartHandshake. With an invalid replica the connection is closed and nothing else happens.
unfoldable pub answer_hello : ℕ → ReplicaInfo → ReplicaManager → ReplicaManager
answer_hello conn r m =
    if is_valid r then (if m.is_leader then welcome conn r m else push_back conn r m) else m

-- answerStartHandshake, of the packet that was received; none where ReplicaInfo is not read.
unfoldable pub answer_start_handshake :
    ℕ → Option (PacketType × Bytes) → ReplicaManager → Option ReplicaManager
answer_start_handshake conn received m = do r ← receive_hello received; some (answer_hello conn r m)

-- A round of the loop that accepts connections.
unfoldable pub accept :
    (ℕ → Bool) → ℕ → Option (PacketType × Bytes) → ReplicaManager → Option ReplicaManager
accept is_closed conn received m =
    answer_start_handshake conn received (remove_closed_connections is_closed m)

-- runStartHandshake, behind receiveState: the loop over the online replicas, with the connection
-- that was opened to each, if any.
unfoldable pub connect_all :
    (ReplicaInfo → Option ℕ) → List ReplicaInfo → ReplicaManager → ReplicaManager
connect_all connect [] m = m
connect_all connect (r ∷ rs) m = connect_all connect rs (elim (connect r) [
  | none ↦ m
  | some conn ↦ push_back conn r (post (send_hello conn m.info ∷ []) m)
])

-- sendElection: whether the election is lost, and what is sent. The loop waits for the answer to
-- each ELECTION.
abbrev pub is_lost : Bool → Bytes → Bool
is_lost lost answer = lost || bytes_eq answer (codes "Lost")

unfoldable pub send_election :
    (ℕ → Bytes → Bytes) → ReplicaInfo → List (ℕ × ReplicaInfo) → Bool → Bool × List Message
send_election answer me [] lost = (lost, [])
send_election answer me ((conn, r) ∷ v) lost =
    let ask = message conn election (serialize me) in
    let lost' = is_lost lost (answer conn ask.payload) in
    let (outcome, more) = send_election answer me v lost' in
    let skipped = send_election answer me v lost in
    if is_not_me me r && ranks_above r me
    then (if lost' then (true, ask ∷ []) else (outcome, ask ∷ more))
    else skipped

unfoldable pub send_coordinator : ReplicaManager → ReplicaManager
send_coordinator m =
    post
      (map (λ conn. message conn coordinator (serialize m.info)) (extract_first m.replicas_vector))
      m

-- sendProfileUpdate and sendNotificationUpdate: to every replica but this one.
unfoldable pub send_to_others :
    ReplicaInfo → PacketType → Bytes → List (ℕ × ReplicaInfo) → List Message
send_to_others me type payload [] = []
send_to_others me type payload ((conn, r) ∷ v) =
    let rest = send_to_others me type payload v in
    if is_not_me me r then message conn type payload ∷ rest else rest

unfoldable pub send_profile_update : ReplicaManager → ReplicaManager
send_profile_update m =
    post (send_to_others m.info update_profile (serialize_users m.profiles.users) m.replicas_vector)
      m

unfoldable pub send_notification_update : ReplicaManager → ReplicaManager
send_notification_update m =
    post
      (send_to_others m.info update_notification (Texts.serialize m.notifications)
        m.replicas_vector)
      m
