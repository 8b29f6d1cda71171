-- ===== src/Replication/Handler.antt =====
-- src/server/replication/rm/ReplicaHandler.cpp: the thread that serves the connection to another
-- replica.
use twitter_clone.Prelude.{
  ℕ, ◌+◌, Bool, true, ◌&&◌, ◌||◌, List, [], ◌∷◌, ◌++◌, Option, none, some, if◌then◌else◌, is_empty,
  Bytes, bytes_eq, codes,
}
use twitter_clone.Packet.{Packet}
use twitter_clone.Packet.Types.{
  PacketType, election, coordinator, answer, update_profile, update_notification,
}
use twitter_clone.Profile.{◌>>=◌}
use twitter_clone.Profile.Manager.{ProfileManager, deserialize_users}
use twitter_clone.Profile.Manager
use twitter_clone.Notification.Manager.{NotificationManager, new_manager}
use twitter_clone.Notification.Manager.Texts
use twitter_clone.Notification.Manager as Notifications
use twitter_clone.Replication.{ReplicaInfo, deserialize, is_not_me, ranks_above}

pub record ReplicaHandler : Type 0 where
  pub info : ReplicaInfo
  pub profiles : ProfileManager
  pub notifications : NotificationManager
  pub is_running_election : Bool
  pub is_connected_to_leader : Bool
  pub lost_election : Bool
  -- How often the thread that waits for an answer is woken.
  pub woken : ℕ
  -- Whether the byte behind each buffer of the deserializers can be written without harm.
  pub spare_byte : Bool
  -- The answers that were sent.
  pub answers : List Bytes

-- The answer to an ELECTION.
unfoldable pub judge : ReplicaInfo → ReplicaInfo → Bytes
judge me r = if is_not_me me r && ranks_above r me then codes "Won" else codes "Lost"

unfoldable pub answer_election : ReplicaInfo → Bytes → Option Bytes
answer_election me payload = do r ← deserialize payload; some (judge me r)

abbrev answered : ReplicaHandler → Option Bytes → Option ReplicaHandler
answered h none = none
answered h (some a) = some (record h { answers = h.answers ++ a ∷ [] })

unfoldable pub handle_election : ReplicaHandler → Bytes → Option ReplicaHandler
handle_election h payload =
    let h' = record h { is_running_election = true } in
    if is_empty payload then some h' else answered h' (answer_election h.info payload)

unfoldable pub handle_coordinator : ReplicaHandler → Bytes → ReplicaHandler
handle_coordinator h payload =
    if is_empty payload then h else record h { is_connected_to_leader = true }

unfoldable pub handle_answer : ReplicaHandler → Bytes → ReplicaHandler
handle_answer h payload = record h {
  lost_election = h.lost_election || bytes_eq payload (codes "Lost");
  woken = h.woken + 1;
}

unfoldable pub handle_profile : ReplicaHandler → Bytes → Option ReplicaHandler
handle_profile h payload = do
  users ← deserialize_users payload
  some (record h { profiles = Manager.update h.profiles users })

unfoldable pub handle_notifications : ReplicaHandler → Bytes → Option ReplicaHandler
handle_notifications h payload = do
  m ← Texts.deserialize h.spare_byte (new_manager h.notifications.inboxes) payload
  some (record h { notifications = Notifications.update h.notifications m })

abbrev pub dispatch : ReplicaHandler → PacketType → Bytes → Option ReplicaHandler
dispatch h election payload = handle_election h payload
dispatch h coordinator payload = some (handle_coordinator h payload)
dispatch h answer payload = some (handle_answer h payload)
dispatch h update_profile payload = handle_profile h payload
dispatch h update_notification payload = handle_notifications h payload
dispatch h _ payload = some h

-- One round of the loop; none where a conversion throws and the process ends.
unfoldable pub handle : ReplicaHandler → Packet → Option ReplicaHandler
handle h p = dispatch h p.type p.payload

-- Behind the loop: the connection was lost.
unfoldable pub connection_lost : ReplicaHandler → ReplicaHandler
connection_lost h = record h {
  is_running_election = h.is_running_election || h.is_connected_to_leader;
}

unfoldable pub run : ReplicaHandler → List Packet → Option ReplicaHandler
run h [] = some (connection_lost h)
run h (p ∷ ps) = do h' ← handle h p; run h' ps
