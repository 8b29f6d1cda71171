-- ===== src/Examples/Replicating.antt =====
-- A leader with a notification that waits, and a replica that follows it.
use twitter_clone.Prelude.{
  ◌≡◌, ◌<◌, ◌≤◌, refl, true, List, [], ◌∷◌, ◌++◌, map, none, some, arith, codes, pos, length,
  bytes_eq, ltb→lt, leb→le, int_max,
}
use twitter_clone.Prelude.Map.{find}
use twitter_clone.Text.{size_mod}
use twitter_clone.Numbers.{print, print_int}
use twitter_clone.Packet.{c_str}
use twitter_clone.Notification.{Notification, PendingNotification, serialize_all, serialize_pending}
use twitter_clone.Notification.Queues.{NotificationQueue, serialize_entries}
use twitter_clone.Notification.Queues
use twitter_clone.Notification.Wire.{IsName, IsLine, IsEntry}
use twitter_clone.Notification.Manager.{NotificationManager}
use twitter_clone.Notification.Manager.Texts.{
  serialize, serialize_notifications, serialize_senders, serialize_queues, deserialize,
}
use twitter_clone.Notification.Manager.Wire.{unsubscribed}
use twitter_clone.Prelude.Distinct.{DistinctKeys}
use twitter_clone.Notification.Manager.RoundTrip.{IsWritable, deserialize-serialize_manager}
use twitter_clone.Replication.Manager.{ReplicaManager, Message, send_notification_update}
use twitter_clone.Replication.Update.{others, UpdateOn, send_notification_update_lem}

abbrev waiting : Notification
waiting = record {
  id = pos 7;
  timestamp = 5;
  username = codes "@a";
  pending_count = pos 1;
  message = codes "hello, you";
}

abbrev waits : PendingNotification
waits = record { sender = codes "@a"; notification_id = pos 7 }

abbrev queue_of_b : NotificationQueue
queue_of_b = record { subscribers = []; pending = waits ∷ [] }

abbrev state : NotificationManager
state = record {
  next_id = 8;
  notifications = (codes "@a", waiting ∷ []) ∷ (codes "@b", []) ∷ [];
  pending_queues = (codes "@b", queue_of_b) ∷ [];
  inboxes = λ address. [];
  updates = 0;
}

alice-IsName : IsName (codes "@a")
alice-IsName = record { visible = omega arith; some_byte = λ e. cc }

bob-IsName : IsName (codes "@b")
bob-IsName = record { visible = omega arith; some_byte = λ e. cc }

waiting_fits : length (serialize_all waiting) ≤ int_max
unfolding serialize_all print print_int c_str
waiting_fits = leb→le _ _ refl

waiting-IsLine : IsLine waiting
waiting-IsLine = record {
  id_fits = omega arith;
  timestamp_fits = omega arith;
  sender_name = alice-IsName;
  count_fits = omega arith;
  message_fits = omega arith;
  message_line = omega arith;
  message_whole = omega arith;
  text_fits = waiting_fits;
}

waits_fits : length (serialize_pending waits) ≤ int_max
unfolding serialize_pending print print_int
waits_fits = leb→le _ _ refl

waits-IsEntry : IsEntry waits
waits-IsEntry = record { sender_name = alice-IsName; id_fits = omega arith; text_fits = waits_fits }

queue_fits : length (Queues.serialize queue_of_b) ≤ int_max
unfolding Queues.serialize serialize_entries serialize_pending print print_int
queue_fits = leb→le _ _ refl

state_fits : length (serialize state) < size_mod
unfolding serialize serialize_queues serialize_senders serialize_notifications serialize_all
    Queues.serialize serialize_entries serialize_pending print print_int c_str
state_fits = ltb→lt _ _ refl

names_distinct : DistinctKeys state.notifications
unfolding find bytes_eq
names_distinct = (refl, (refl, tt))

users_distinct : DistinctKeys state.pending_queues
unfolding find
users_distinct = (refl, tt)

state-IsWritable : IsWritable state
state-IsWritable = record {
  id_fits = omega arith;
  senders = (
    record { name = alice-IsName; lines = (waiting-IsLine, tt); lines_fit = omega arith },
    (record { name = bob-IsName; lines = tt; lines_fit = omega arith }, tt),
  );
  users = (
    record {
      name = bob-IsName;
      entries = (waits-IsEntry, tt);
      entries_fit = omega arith;
      text_fits = queue_fits;
    },
    tt,
  );
  senders_distinct = names_distinct;
  users_distinct = users_distinct;
  text_fits = state_fits;
}

deserialize-serialize_manager_example :
    deserialize true state (serialize state)
    ≡ some (record state {
      next_id = 8;
      notifications = state.notifications;
      pending_queues = map unsubscribed state.pending_queues;
    })
deserialize-serialize_manager_example = deserialize-serialize_manager state state-IsWritable state

abbrev leader_of_two : ReplicaManager
leader_of_two = record {
  info = record { id = pos 9; ip = codes "l"; port = pos 3 };
  is_leader = true;
  profiles = record { users = []; file = none; updates = [] };
  notifications = state;
  replicas_vector = (4, record { id = pos 0; ip = codes "a"; port = pos 1 }) ∷ [];
  sent = [];
}

send_notification_update_example :
    (sent : List Message) × ((send_notification_update leader_of_two).sent ≡ [] ++ sent)
    × UpdateOn state (others leader_of_two.info leader_of_two.replicas_vector) sent
send_notification_update_example = send_notification_update_lem leader_of_two state-IsWritable
