-- ===== src/Examples/Notifications.antt =====
-- Notifications and queues.
use twitter_clone.Prelude.{
  arith, length, ◌+◌, ◌<◌, ◌≡◌, refl, true, false, ℕ, ◌-◌, List, [], ◌∷◌, ◌++◌, some, codes, pos,
  to_int, bytes_eq, if◌then◌else◌, ◌==◌,
}
use twitter_clone.Prelude.Map.{find, has}
use twitter_clone.Queue.{try_remove_for, Wakeup}
use twitter_clone.Queue.Fifo.{taken_and_left, arrived, try_remove_for_lem}
use twitter_clone.Profile.Followers.{contains, Distinct}
use twitter_clone.Notification.{Notification, serialize}
use twitter_clone.Packet.{c_str}
use twitter_clone.Client
use twitter_clone.Numbers.{print, print_int}
use twitter_clone.Text.{size_mod}
use twitter_clone.Client.Reading.{IsReadable, header, deserialize-serialize_notification}
use twitter_clone.Notification.Queues.{empty_queue, key}
use twitter_clone.Notification.Manager.{NotificationManager, notifications_of, send, subscribe}
use twitter_clone.Notification.Manager.Counting.{send-pending_count, served_count}
use twitter_clone.Notification.Manager.Delivery.{offline_delivery, Fresh}

abbrev pub one_offline : NotificationManager
one_offline = record {
  next_id = 7;
  notifications = (codes "@a", []) ∷ (codes "@b", []) ∷ [];
  pending_queues = (codes "@b", empty_queue) ∷ [];
  inboxes = λ address. [];
  updates = 0;
}

abbrev pub hello : Notification
hello = record {
  id = pos 0;
  timestamp = 5;
  username = codes "@a";
  pending_count = pos 1;
  message = codes "hello";
}

pub sender_known : has (codes "@a") one_offline.notifications ≡ true
unfolding find has bytes_eq
sender_known = refl

pub offline_follower : find (codes "@b") one_offline.pending_queues ≡ some empty_queue
unfolding find bytes_eq
offline_follower = refl

pub list-Fresh : Fresh (to_int 7) (notifications_of (codes "@a") one_offline)
unfolding notifications_of find bytes_eq
list-Fresh = tt

one_follower : Distinct (codes "@b" ∷ [])
unfolding contains
one_follower = (refl, tt)

offline_delivery_example :
    let m' = subscribe (send one_offline hello (codes "@b" ∷ [])) (codes "@b") 3 40 in
    (m'.inboxes 40 ≡ [] ++ record hello { id = to_int 7; pending_count = pos 1 } ∷ [])
    × (notifications_of (codes "@a") m' ≡ notifications_of (codes "@a") one_offline)
    × (find (codes "@b") m'.pending_queues
        ≡ some (record { subscribers = (key 3, 40) ∷ []; pending = [] }))
offline_delivery_example =
    offline_delivery one_offline hello (codes "@b") 3 40 sender_known offline_follower refl
      list-Fresh

send-pending_count_example :
    let waiting = 1 - served_count one_offline.pending_queues (codes "@b" ∷ []) in
    notifications_of (codes "@a") (send one_offline hello (codes "@b" ∷ [])) ≡ (
      if waiting == 0
      then notifications_of (codes "@a") one_offline
      else notifications_of (codes "@a") one_offline
        ++ record hello { id = to_int 7; pending_count = pos waiting } ∷ [])
send-pending_count_example =
    send-pending_count one_offline hello (codes "@b" ∷ []) sender_known one_follower refl

abbrev late_insert : List (Wakeup ℕ)
late_insert = record { timeout = false; new = [] } ∷ record { timeout = true; new = 4 ∷ [] } ∷ []

try_remove_for_example :
    (taken_and_left (try_remove_for late_insert []) ≡ arrived late_insert [])
    × ((x : ℕ) (xs : List ℕ) → [] ≡ x ∷ xs → try_remove_for late_insert [] ≡ (some x, xs))
try_remove_for_example = try_remove_for_lem late_insert []

hello-IsReadable : IsReadable hello
hello-IsReadable = record {
  id_fits = omega arith;
  timestamp_fits = omega arith;
  name_visible = omega arith;
  name_some = λ e. cc;
  name_fits = omega arith;
  message_fits = omega arith;
}

hello_short : length (header hello) + 2 < size_mod
unfolding print print_int
hello_short = omega arith

read_notification_example :
    Client.deserialize (λ timestamp. codes "today") (serialize hello)
    ≡ Client.notification (record {
      id = pos 0;
      sender = codes "@a";
      date = codes "today";
      message = c_str (codes "hello");
    })
read_notification_example =
    deserialize-serialize_notification hello (λ timestamp. codes "today") hello-IsReadable
      hello_short
