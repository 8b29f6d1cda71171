-- ===== src/Notification/Consumer.antt =====
-- src/server/notification/NotificationConsumer.cpp: the thread that sends a session's notifications
-- to its client.
pub mod Delivery
use twitter_clone.Prelude.{ℕ, List, [], ◌∷◌, ◌++◌, Option, none, some, Bytes}
use twitter_clone.Queue.{Wakeup, try_remove_for}
use twitter_clone.Packet.{Packet, make, c_str}
use twitter_clone.Packet.Types.{data_type}
use twitter_clone.Notification.{Notification, serialize}
use twitter_clone.Notification.Manager.{NotificationManager, subscribe, unsubscribe}

-- A round of the loop: what is inserted before it tries to remove, what happens while it waits, and
-- the time.
pub record Round : Type 0 where
  pub before : List Notification
  pub wakeups : List (Wakeup Notification)
  pub now : ℕ

-- Packet(DATA, &notification): its length is that of the text, its payload a C string.
unfoldable pub packet_of : ℕ → Notification → Packet
packet_of now n = record (make now data_type (serialize n)) { payload = c_str (serialize n) }

abbrev pub send_taken :
    ℕ
    → (List Notification → List Packet × List Notification)
    → Option Notification × List Notification
    → List Packet × List Notification
send_taken now rest (none, queue) = rest queue
send_taken now rest (some n, queue) = (packet_of now n ∷ (rest queue).0, (rest queue).1)

-- The loop: the packets that are sent, and the queue that is left. There is a round for each time
-- that shouldStop is false.
unfoldable pub consume : List Round → List Notification → List Packet × List Notification
consume [] queue = ([], queue)
consume (r ∷ rounds) queue =
    send_taken r.now (λ q. consume rounds q) (try_remove_for r.wakeups (queue ++ r.before))

-- run, with the address of m_queue. What other threads do with the manager meanwhile is `others`.
unfoldable pub run :
    (NotificationManager → NotificationManager)
    → NotificationManager
    → Bytes
    → ℕ
    → ℕ
    → List Round
    → List Packet × NotificationManager
run others m username id address rounds =
    let m' = subscribe m username id address in
    ((consume rounds (m'.inboxes address)).0, unsubscribe (others m') username id)
