-- ===== src/Notification/Manager.antt =====
-- src/server/notification/NotificationManager: under one mutex, so each method is one step. The
-- calls of onUpdateCallback, whose result is not used, are counted.
pub mod Counting
pub mod Delivery
pub mod Texts
pub mod Lines
pub mod Wire
pub mod RoundTrip
use twitter_clone.Prelude.{
  ℕ, ◌+◌, ◌%◌, ◌^◌, Bool, true, false, not, List, [], ◌∷◌, ◌++◌, Option, none, some, ◌==◌,
  if◌then◌else◌, init, Bytes, ℤ, pos, negsuc, dec, ltb_ℤ, int_eq, to_int,
}
use twitter_clone.Prelude.Map.{Map, find, has, emplace, assign}
use twitter_clone.Notification.{Notification, PendingNotification}
use twitter_clone.Notification.Queues.{
  NotificationQueue, Inboxes, empty_queue, insert_notification, insert_to_subscribers,
  remove_pending,
}
use twitter_clone.Notification.Queues

pub record NotificationManager : Type 0 where
  pub next_id : ℕ
  pub notifications : Map (List Notification)
  pub pending_queues : Map NotificationQueue
  pub inboxes : Inboxes
  pub updates : ℕ

-- NotificationManager(): the first id is 1. The queues of sessions are not its own.
unfoldable pub new_manager : Inboxes → NotificationManager
new_manager inboxes = record {
  next_id = 1;
  notifications = [];
  pending_queues = [];
  inboxes = inboxes;
  updates = 0;
}

-- unsigned int m_nextId.
unfoldable pub get_next_id : NotificationManager → ℕ × NotificationManager
get_next_id m = (m.next_id, record m { next_id = (m.next_id + 1) % 2 ^ 32 })

abbrev pub list_or_empty : Option (List Notification) → List Notification
list_or_empty none = []
list_or_empty (some ns) = ns

unfoldable pub notifications_of : Bytes → NotificationManager → List Notification
notifications_of sender m = list_or_empty (find sender m.notifications)

-- createNotification: the notification with its id, and whether the sender is known.
unfoldable pub create_notification :
    NotificationManager → Notification → NotificationManager × Notification × Bool
create_notification m n =
    let (id, m') = get_next_id m in
    let n' = record n { id = to_int id } in
    if has n.username m.notifications
    then (
      record m' {
        notifications =
            assign n.username (notifications_of n.username m ++ n' ∷ []) m.notifications;
      },
      n',
      true,
    )
    else (m, n, false)

-- One round of the loop over the followers: the manager, and how many have been served at once.
abbrev pub insert_for :
    NotificationManager
    → Notification
    → Bytes
    → Option NotificationQueue
    → NotificationManager × Bool
insert_for m n follower none = (m, false)
insert_for m n follower (some q) =
    let (q', sent, inboxes) = insert_notification q n m.inboxes in
    (record m { pending_queues = assign follower q' m.pending_queues; inboxes = inboxes }, sent)

-- The loop over the followers, with the pending count of the stored notification.
unfoldable pub send_to :
    NotificationManager → Notification → List Bytes → ℤ → NotificationManager × ℤ
send_to m n [] count = (m, count)
send_to m n (f ∷ fs) count =
    let (m', sent) = insert_for m n f (find f m.pending_queues) in
    send_to m' n fs (if sent then dec count else count)

-- A write of the last notification's pending count.
unfoldable pub set_last_count : ℤ → List Notification → List Notification
set_last_count count [] = []
set_last_count count (n ∷ []) = record n { pending_count = count } ∷ []
set_last_count count (n ∷ o ∷ ns) = n ∷ set_last_count count (o ∷ ns)

-- `pendingCount <= 0`.
abbrev pub none_waits : ℤ → Bool
none_waits count = not (ltb_ℤ (pos 0) count)

unfoldable pub store_count : Bytes → ℤ → NotificationManager → NotificationManager
store_count sender count m =
    let ns = notifications_of sender m in
    record m {
      notifications =
          assign sender (if none_waits count then init ns else set_last_count count ns)
            m.notifications;
    }

unfoldable pub send : NotificationManager → Notification → List Bytes → NotificationManager
send m n followers =
    let (m', n', created) = create_notification m n in
    let (m'', count) = send_to m' n' followers n'.pending_count in
    let m₃ = store_count n.username count m'' in
    if created then record m₃ { updates = m₃.updates + 1 } else m

-- The search of findNotification in the sender's list: the notification as it was found, and the
-- list with one waiting user less, or without it where none waits any longer.
unfoldable pub take_notification : ℤ → List Notification → Option Notification × List Notification
take_notification id [] = (none, [])
take_notification id (n ∷ ns) =
    let (found, rest) = take_notification id ns in
    let count = dec n.pending_count in
    if int_eq n.id id
    then (some n, if none_waits count then ns else record n { pending_count = count } ∷ ns)
    else (found, n ∷ rest)

unfoldable pub find_notification :
    NotificationManager → PendingNotification → Option Notification × NotificationManager
find_notification m p = elim (find p.sender m.notifications) [
  | none ↦ (none, m)
  | some ns ↦
      let (found, ns') = take_notification p.notification_id ns in
      (found, record m { notifications = assign p.sender ns' m.notifications })
]

abbrev pub hand_over :
    NotificationQueue → Option Notification → NotificationManager → NotificationManager
hand_over q none m = m
hand_over q (some n) m = record m { inboxes = (insert_to_subscribers q n m.inboxes).1 }

-- The loop of subscribe over the pending entries of a queue that the user now subscribes to. It
-- takes the entries out one by one, so it recurs on them; the queue is written back at the end.
unfoldable pub drain :
    NotificationQueue → List PendingNotification → NotificationManager → NotificationManager
drain q [] m = m
drain q (p ∷ ps) m = let (found, m') = find_notification m p in drain q ps (hand_over q found m')

unfoldable pub subscribe : NotificationManager → Bytes → ℕ → ℕ → NotificationManager
subscribe m username id address = elim (find username m.pending_queues) [
  | some q ↦
      let q' = Queues.subscribe id address q in
      let m' = drain q' q'.pending m in
      record m' {
        pending_queues = assign username (record q' { pending = [] }) m'.pending_queues;
        updates = m'.updates + 1;
      }
  | none ↦ record m {
    notifications = emplace username [] m.notifications;
    pending_queues = emplace username (Queues.subscribe id address empty_queue) m.pending_queues;
    updates = m.updates + 1;
  }
]

abbrev pub unsubscribe_queue :
    ℕ → Bytes → Option NotificationQueue → Map NotificationQueue → Map NotificationQueue
unsubscribe_queue id username none queues = queues
unsubscribe_queue id username (some q) queues = assign username (Queues.unsubscribe id q) queues

unfoldable pub unsubscribe : NotificationManager → Bytes → ℕ → NotificationManager
unsubscribe m username id = record m {
  pending_queues = unsubscribe_queue id username (find username m.pending_queues) m.pending_queues;
  updates = m.updates + 1;
}

unfoldable pub load_users : NotificationManager → List Bytes → NotificationManager
load_users m [] = m
load_users m (username ∷ usernames) =
    load_users
      (record m {
        notifications = emplace username [] m.notifications;
        pending_queues = emplace username empty_queue m.pending_queues;
      })
      usernames

-- update: the replica takes the three fields over; its sessions' queues are its own.
unfoldable pub update : NotificationManager → NotificationManager → NotificationManager
update m manager = record m {
  next_id = manager.next_id;
  pending_queues = manager.pending_queues;
  notifications = manager.notifications;
}
