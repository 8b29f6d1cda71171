-- ===== src/Notification/Queues.antt =====
-- src/server/notification/NotificationQueue: what waits for one user, and the queues of her
-- sessions. A session's queue belongs to its consumer thread; here it is an address, and the
-- contents of all such queues are a function of the address.
use twitter_clone.Prelude.{
  ℕ, zero, suc, Option, some, pos_part, ◌%◌, ◌^◌, Bool, true, false, not, List, [], ◌∷◌, ◌++◌, ◌==◌,
  if◌then◌else◌, is_empty, length, Bytes, codes,
}
use twitter_clone.Queue.{insert, pop}
use twitter_clone.Notification.{
  Notification, PendingNotification, no_pending, serialize_pending, deserialize_pending,
}
use twitter_clone.Numbers.{print, scan_int}
use twitter_clone.Streams.{read_counted, ◌>>=◌}

-- The contents of the sessions' queues.
abbrev pub Inboxes : Type 0
Inboxes = ℕ → List Notification

unfoldable pub deliver : Notification → ℕ → Inboxes → Inboxes
deliver n address inboxes = λ a. if a == address then insert n (inboxes a) else inboxes a

pub record NotificationQueue : Type 0 where
  -- m_subscribersQueue: the session's id, as unsigned int, and the address of its queue.
  pub subscribers : List (ℕ × ℕ)
  pub pending : List PendingNotification

unfoldable pub empty_queue : NotificationQueue
empty_queue = record { subscribers = []; pending = [] }

unfoldable pub deliver_all : Notification → List (ℕ × ℕ) → Inboxes → Inboxes
deliver_all n [] inboxes = inboxes
deliver_all n ((id, address) ∷ subscribers) inboxes =
    deliver_all n subscribers (deliver n address inboxes)

-- insertToSubscribers.
unfoldable pub insert_to_subscribers : NotificationQueue → Notification → Inboxes → Bool × Inboxes
insert_to_subscribers q n inboxes =
    if is_empty q.subscribers then (false, inboxes) else (true, deliver_all n q.subscribers inboxes)

-- NotificationQueue::insert: delivered to the subscribers, or pending where there is none.
unfoldable pub insert_notification :
    NotificationQueue → Notification → Inboxes → NotificationQueue × Bool × Inboxes
insert_notification q n inboxes =
    if is_empty q.subscribers
    then (
      record q {
        pending = insert (record { sender = n.username; notification_id = n.id }) q.pending;
      },
      false,
      inboxes,
    )
    else (q, true, deliver_all n q.subscribers inboxes)

unfoldable pub has_pending : NotificationQueue → Bool
has_pending q = not (is_empty q.pending)

abbrev pub front_or : PendingNotification → List PendingNotification → PendingNotification
front_or d [] = d
front_or d (p ∷ ps) = p

unfoldable pub remove_pending : NotificationQueue → PendingNotification × NotificationQueue
remove_pending q = (front_or no_pending q.pending, record q { pending = (pop q.pending).1 })

-- The key of the map is an unsigned int.
abbrev pub key : ℕ → ℕ
key id = id % 2 ^ 32

-- emplace: an entry that is there stays.
unfoldable pub emplace_subscriber : ℕ → ℕ → List (ℕ × ℕ) → List (ℕ × ℕ)
emplace_subscriber id address [] = (id, address) ∷ []
emplace_subscriber id address ((i, a) ∷ ss) =
    if i == id then (i, a) ∷ ss else (i, a) ∷ emplace_subscriber id address ss

unfoldable pub subscribe : ℕ → ℕ → NotificationQueue → NotificationQueue
subscribe id address q = record q {
  subscribers = emplace_subscriber (key id) address q.subscribers;
}

unfoldable pub erase_subscriber : ℕ → List (ℕ × ℕ) → List (ℕ × ℕ)
erase_subscriber id [] = []
erase_subscriber id ((i, a) ∷ ss) = if i == id then ss else (i, a) ∷ erase_subscriber id ss

unfoldable pub unsubscribe : ℕ → NotificationQueue → NotificationQueue
unsubscribe id q = record q { subscribers = erase_subscriber (key id) q.subscribers }

-- serialize: the number of pending entries, and each with its length.
unfoldable pub serialize_entries : List PendingNotification → Bytes → Bytes
serialize_entries [] s = s
serialize_entries (p ∷ ps) s =
    let text = serialize_pending p in
    serialize_entries ps (s ++ (codes " " ++ (print (length text) ++ (codes " " ++ text))))

unfoldable pub serialize : NotificationQueue → Bytes
serialize q = serialize_entries q.pending (print (length q.pending))

-- The loop of deserialize over the entries, as often as the size says.
unfoldable pub read_entries : Bool → ℕ → Bytes → Option (List PendingNotification)
read_entries spare_byte zero s = some []
read_entries spare_byte (suc n) s = do
  (text, s₁) ← read_counted spare_byte s
  p ← deserialize_pending text
  ps ← read_entries spare_byte n s₁
  some (p ∷ ps)

-- deserialize, into a queue without subscribers; none where something is missing.
unfoldable pub deserialize : Bool → Bytes → Option NotificationQueue
deserialize spare_byte raw = do
  (size, s) ← scan_int raw
  ps ← read_entries spare_byte (pos_part size) s
  some (record { subscribers = []; pending = ps })
