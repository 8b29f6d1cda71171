-- ===== src/Replication/Running.antt =====
-- The outer loop of ReplicaManager::run, and how a replica starts. What connect, accept and the peers
-- give is a part of each round; the threads of the connections are Handler.
use twitter_clone.Prelude.{
  ℕ, ◌+◌, Bool, true, false, not, List, [], ◌∷◌, ◌++◌, Option, none, some, if◌then◌else◌, Bytes,
  codes, negsuc, ℤ,
}
use twitter_clone.Numbers.{print_int, atoi}
use twitter_clone.Packet.Types.{PacketType, new_leader}
use twitter_clone.Profile.{◌>>=◌}
use twitter_clone.Profile.Manager.{ProfileManager, get_all_usernames}
use twitter_clone.Profile.Manager
use twitter_clone.Notification.Manager as Notifications
use twitter_clone.Notification.Manager.{NotificationManager}
use twitter_clone.Providers.{Address, frontend_addresses}
use twitter_clone.Replication.{ReplicaInfo, receive_state}
use twitter_clone.Replication.Manager.{
  ReplicaManager, Message, message, post, accept, send_hello, connect_all,
  remove_closed_connections, send_election, send_coordinator,
}

-- The manager, m_leaderConn, how many notification servers it has started, and the packets to the
-- front-ends.
pub record Replica : Type 0 where
  pub manager : ReplicaManager
  pub leader_conn : Option ℕ
  pub servers : ℕ
  pub notices : List Message

-- A connection that is accepted: which others are closed then, and the packet that is received on it.
pub record Accepted : Type 0 where
  pub is_closed : ℕ → Bool
  pub conn : ℕ
  pub hello : Option (PacketType × Bytes)

pub record Round : Type 0 where
  pub to_leader : Option ℕ
  -- The payload that receiveState receives.
  pub state : Option Bytes
  pub to_replica : ReplicaInfo → Option ℕ
  -- Those that are accepted before the election starts.
  pub accepted : List Accepted
  pub is_closed : ℕ → Bool
  pub answer : ℕ → Bytes → Bytes
  pub to_frontend : Address → Option ℕ

-- notifyFrontends.
abbrev pub send_notice : Option ℕ → Bytes → List Message → List Message
send_notice none payload rest = rest
send_notice (some conn) payload rest = message conn new_leader payload ∷ rest

unfoldable pub notify_each : (Address → Option ℕ) → Bytes → List Address → List Message
notify_each connect payload [] = []
notify_each connect payload (a ∷ addresses) =
    send_notice (connect a) payload (notify_each connect payload addresses)

unfoldable pub notify_frontends : (Address → Option ℕ) → ReplicaInfo → List Message
notify_frontends connect info =
    notify_each connect (info.ip ++ (codes " " ++ print_int info.port)) frontend_addresses

-- runStartHandshake, on the connection to the leader.
abbrev pub state_received : ReplicaInfo → Option Bytes → Option (ReplicaInfo × List ReplicaInfo)
state_received info none = some (info, [])
state_received info (some payload) = receive_state info payload

unfoldable pub run_start_handshake :
    ℕ → Option Bytes → (ReplicaInfo → Option ℕ) → ReplicaManager → Option ReplicaManager
run_start_handshake conn state connect m = do
  (info, replicas) ← state_received m.info state
  some
      (connect_all connect replicas (record (post (send_hello conn m.info ∷ []) m) { info = info }))

unfoldable pub accept_all : List Accepted → ReplicaManager → Option ReplicaManager
accept_all [] m = some m
accept_all (a ∷ rest) m = do m' ← accept a.is_closed a.conn a.hello m; accept_all rest m'

-- The start of a round.
abbrev pub start_server : Replica → Replica
start_server x = if x.manager.is_leader then record x { servers = x.servers + 1 } else x

abbrev pub join_on : Option ℕ → Round → Replica → Option Replica
join_on none r x = some x
join_on (some conn) r x = do
  m ← run_start_handshake conn r.state r.to_replica x.manager
  some (record x { manager = m; leader_conn = some conn })

abbrev pub join_if : Bool → Option ℕ → Round → Replica → Option Replica
join_if true none r x = join_on r.to_leader r x
join_if true (some conn) r x = some x
join_if false conn r x = some x

unfoldable pub join_leader : Round → Replica → Option Replica
join_leader r x = join_if (not x.manager.is_leader) x.leader_conn r x

-- The election at its end: without an answer "Lost" this replica is the leader.
abbrev pub win : Round → ReplicaManager → Replica → Replica
win r m x = record x {
  manager = record (send_coordinator m) { is_leader = true };
  leader_conn = none;
  notices = x.notices ++ notify_frontends r.to_frontend m.info;
}

abbrev pub conclude : Round → ReplicaManager → Replica → Bool × List Message → Replica
conclude r m x (true, asked) = record x { manager = post asked m }
conclude r m x (false, asked) = win r (post asked m) x

unfoldable pub elect : Round → Replica → Replica
elect r x =
    let m = remove_closed_connections r.is_closed x.manager in
    conclude r m x (send_election r.answer m.info m.replicas_vector false)

-- A round of the loop; none where a conversion throws.
unfoldable pub round : Round → Replica → Option Replica
round r x = do
  x₁ ← join_leader r (start_server x)
  m ← accept_all r.accepted x₁.manager
  some (elect r (record x₁ { manager = m }))

unfoldable pub run : List Round → Replica → Option Replica
run [] x = some x
run (r ∷ rounds) x = do x' ← round r x; run rounds x'

-- ReplicaManager(), and start where its server can be started: a leader loads the users of the file.
unfoldable pub new_replica_manager :
    ReplicaInfo → Bool → ProfileManager → NotificationManager → Replica
new_replica_manager info is_leader profiles notifications = record {
  manager = record {
    info = info;
    is_leader = is_leader;
    profiles = profiles;
    notifications = notifications;
    replicas_vector = [];
    sent = [];
  };
  leader_conn = none;
  servers = 0;
  notices = [];
}

unfoldable pub load : ReplicaManager → Option ReplicaManager
load m = do
  profiles ← Manager.load_users m.profiles
  some (record m {
    profiles = profiles;
    notifications = Notifications.load_users m.notifications (get_all_usernames profiles);
  })

unfoldable pub start : List Round → Replica → Option Replica
start rounds x = do
  m ← (if x.manager.is_leader then load x.manager else some x.manager)
  run rounds (record x { manager = m })

-- main: whether it is the leader, its info and the leader's port, from the arguments.
abbrev info_at : Bytes → ReplicaInfo
info_at port = record { id = negsuc 0; ip = codes "0.0.0.0"; port = atoi port }

unfoldable pub arguments : List Bytes → Option (Bool × ReplicaInfo × ℤ)
arguments (port ∷ []) = some (true, info_at port, atoi port)
arguments (port ∷ leader ∷ []) = some (false, info_at port, atoi leader)
arguments _ = none
