-- ===== src/Client/Feed/Offline.antt =====
-- A notification on its way from the sender to the feed of a follower who was offline.
use twitter_clone.Prelude.{
  ℕ, ◌+◌, ◌<◌, ◌≡◌, refl, ap, ◌∙◌, true, List, [], ◌∷◌, ◌++◌, some, length, Bytes, pos, to_int,
}
use twitter_clone.Prelude.Map.{find, has}
use twitter_clone.Text.{size_mod}
use twitter_clone.Queue.{try_remove_for}
use twitter_clone.Packet.{Packet, make}
use twitter_clone.Notification as Server
use twitter_clone.Notification.Queues.{empty_queue}
use twitter_clone.Notification.Manager.{NotificationManager, send, notifications_of}
use twitter_clone.Notification.Manager.Delivery.{Fresh, offline_delivery}
use twitter_clone.Notification.Consumer.{Round, packet_of, consume, run, send_taken}
use twitter_clone.Client.Reading.{IsReadable, header, c_str-serialize_notification}
use twitter_clone.Client.Feed.{Consumer, consume_type}
use twitter_clone.Client.Feed.Delivery.{shown, with_items, consume-one}

first_sent :
    (r : Round) (rounds : List Round) (queue : List Server.Notification) (n : Server.Notification)
    → queue ≡ n ∷ []
    → (ps : List Packet) × ((consume (r ∷ rounds) queue).0 ≡ packet_of r.now n ∷ ps)
unfolding consume try_remove_for
first_sent r rounds queue n e = (
  (consume rounds ([] ++ r.before)).0,
  ap (λ q. (send_taken r.now (λ q. consume rounds q) (try_remove_for r.wakeups (q ++ r.before))).0)
      e,
)

-- A notification that a known sender sends, with a pending count of one, to a follower who is
-- offline, with nothing pending, is what the consumer of the session that she opens next sends
-- first, and her client puts it on top of its feed, with its new id, its sender and its message.
-- The queue of the session is empty before, no notification of the sender has the new id, and a
-- client can read this one.
pub offline_to_feed :
    (m : NotificationManager) (n : Server.Notification) (f : Bytes) (id address : ℕ)
    → has n.username m.notifications ≡ true
    → find f m.pending_queues ≡ some empty_queue
    → n.pending_count ≡ pos 1
    → Fresh (to_int m.next_id) (notifications_of n.username m)
    → m.inboxes address ≡ []
    → let stored = record n { id = to_int m.next_id; pending_count = pos 1 } in
      IsReadable stored
      → length (header stored) + 2 < size_mod
      → (others : NotificationManager → NotificationManager) (r : Round) (rounds : List Round)
        (beautify_time : ℕ → Bytes) (c : Consumer)
      → (p : Packet) × (ps : List Packet) × ((run others
            (send m n (f ∷ []))
            f
            id
            address
            (r ∷ rounds)).0
          ≡ p ∷ ps)
        × (consume_type beautify_time c p.type p.payload
            ≡ some (with_items beautify_time c (shown beautify_time stored ∷ c.feed.items)))
unfolding run packet_of make
offline_to_feed m n f id address known offline count fresh quiet readable fits others r rounds
      beautify_time c =
    let stored = record n { id = to_int m.next_id; pending_count = pos 1 } in
    let queued =
      (offline_delivery m n f id address known offline count fresh).0
      ∙ ap (λ l. l ++ stored ∷ []) quiet in
    let (ps, e) = first_sent r rounds _ stored queued in
    (
      packet_of r.now stored,
      ps,
      e,
      consume-one beautify_time c (packet_of r.now stored) stored
          (refl, c_str-serialize_notification stored readable, readable, fits),
    )
