-- ===== src/Notification/Manager/Delivery.antt =====
-- A notification for a user who is offline reaches her when she comes back.
use mathlib.Core.List.{concat-ne-nil}
use twitter_clone.Prelude.{
  ℕ, zero, suc, ◌+◌, ◌-◌, ◌≡◌, refl, sym, ap, ◌∙◌, true, false, List, [], ◌∷◌, ◌++◌, some, arith,
  ◌==◌, if◌then◌else◌, Bytes, ℤ, pos, negsuc, int_eq, to_int, Option-cases, inl, inr,
}
use twitter_clone.Prelude.Map.{find, has, assign, find-assign_self}
use twitter_clone.Profile.Followers.{contains}
use twitter_clone.Queue.{insert}
use twitter_clone.Notification.{Notification, PendingNotification}
use twitter_clone.Notification.Queues.{
  NotificationQueue, Inboxes, deliver, deliver_all, empty_queue, insert_notification,
  insert_to_subscribers, key,
}
use twitter_clone.Notification.Queues
use twitter_clone.Notification.Manager.{
  NotificationManager, notifications_of, list_or_empty, send_to, store_count, send,
  take_notification, find_notification, hand_over, insert_for, drain, subscribe,
}
use twitter_clone.Notification.Manager.Counting.{
  served_count, is_served, send-pending_count, send-eq, created, numbered,
}

-- No notification of the list has the id.
abbrev pub Fresh : ℤ → List Notification → Type 0
Fresh z [] = Unit
Fresh z (n ∷ ns) = (int_eq n.id z ≡ false) × Fresh z ns

int_eq_refl : (z : ℤ) → int_eq z z ≡ true
int_eq_refl (pos n) = ground arith
int_eq_refl (negsuc n) = ground arith

-- The last user who waits takes the notification out of the list.
take_notification-concat :
    (z : ℤ) (ns : List Notification) (n : Notification)
    → Fresh z ns
    → n.id ≡ z
    → n.pending_count ≡ pos 1
    → take_notification z (ns ++ n ∷ []) ≡ (some n, ns)
unfolding take_notification
take_notification-concat z [] n h e c = ground (arith, int_eq_refl z)
take_notification-concat z (o ∷ ns) n h e c =
    ground (arith, take_notification-concat z ns n h.1 e c)

find-of-list :
    (s : Bytes) (m : NotificationManager) (ns : List Notification) (n : Notification)
    → notifications_of s m ≡ ns ++ n ∷ []
    → find s m.notifications ≡ some (ns ++ n ∷ [])
unfolding notifications_of
find-of-list s m ns n e = elim (Option-cases (find s m.notifications)) [
  | inl missing ↦ absurd (concat-ne-nil n ns (sym e ∙ ap list_or_empty missing))
  | inr (xs, found) ↦ found ∙ ap some (sym (ap list_or_empty found) ∙ e)
]

find_notification-last :
    (m : NotificationManager) (s : Bytes) (z : ℤ) (ns : List Notification) (n : Notification)
    → find s m.notifications ≡ some (ns ++ n ∷ [])
    → Fresh z ns
    → n.id ≡ z
    → n.pending_count ≡ pos 1
    → find_notification m (record { sender = s; notification_id = z })
      ≡ (some n, record m { notifications = assign s ns m.notifications })
unfolding find_notification
find_notification-last m s z ns n e h i c =
    rw (e, find_notification) (rw (take_notification-concat z ns n h i c))

-- The queue of a user for whom one notification waits.
abbrev waiting_queue : Bytes → ℤ → NotificationQueue
waiting_queue s z = record {
  subscribers = [];
  pending = record { sender = s; notification_id = z } ∷ [];
}

drain_one :
    (q : NotificationQueue) (p : PendingNotification) (m m₂ : NotificationManager)
    (n : Notification)
    → find_notification m p ≡ (some n, m₂)
    → drain q (p ∷ []) m ≡ hand_over q (some n) m₂
unfolding drain
drain_one q p m m₂ n e = ap (λ r. hand_over q r.0 r.1) e

deliver_one :
    (n : Notification) (address : ℕ) (inboxes : Inboxes) (k : ℕ)
    → deliver_all n ((k, address) ∷ []) inboxes address ≡ inboxes address ++ n ∷ []
unfolding deliver_all deliver insert
deliver_one n address inboxes k = ground arith

-- What subscribe does where one notification waits and is found.
subscribe_waiting :
    (m : NotificationManager) (s f : Bytes) (z : ℤ) (n : Notification) (id address : ℕ)
    → {m₂ : NotificationManager} → find f m.pending_queues ≡ some (waiting_queue s z)
    → find_notification m (record { sender = s; notification_id = z }) ≡ (some n, m₂)
    → subscribe m f id address ≡ record m₂ {
      inboxes = deliver_all n ((key id, address) ∷ []) m₂.inboxes;
      pending_queues =
          assign f
            (record { subscribers = (key id, address) ∷ []; pending = [] })
            m₂.pending_queues;
      updates = m₂.updates + 1;
    }
unfolding subscribe Queues.subscribe Queues.emplace_subscriber insert_to_subscribers
subscribe_waiting m s f z n id address {m₂} q e =
    rw (q, subscribe)
      (ap {A = NotificationManager} {B = NotificationManager}
        (λ r. record r {
          pending_queues =
              assign f (record { subscribers = (key id, address) ∷ []; pending = [] })
                r.pending_queues;
          updates = r.updates + 1;
        })
        (drain_one (Queues.subscribe id address (waiting_queue s z))
          (record { sender = s; notification_id = z }) m m₂ n e))

subscribe_one :
    (m : NotificationManager) (s f : Bytes) (z : ℤ) (ns : List Notification) (n : Notification)
    (id address : ℕ)
    → find f m.pending_queues ≡ some (waiting_queue s z)
    → find s m.notifications ≡ some (ns ++ n ∷ [])
    → Fresh z ns
    → n.id ≡ z
    → n.pending_count ≡ pos 1
    → let m' = subscribe m f id address in
      (m'.inboxes address ≡ m.inboxes address ++ n ∷ [])
      × (notifications_of s m' ≡ ns)
      × (find f m'.pending_queues
          ≡ some (record { subscribers = (key id, address) ∷ []; pending = [] }))
unfolding notifications_of
subscribe_one m s f z ns n id address q e h i c =
    let w = subscribe_waiting m s f z n id address q (find_notification-last m s z ns n e h i c) in
    (
      ap (λ r. r.inboxes address) w ∙ deliver_one n address m.inboxes (key id),
      ap (λ r. list_or_empty (find s r.notifications)) w
          ∙ ap list_or_empty (find-assign_self s ns (ns ++ n ∷ []) m.notifications e),
      ap (λ r. find f r.pending_queues) w
          ∙ find-assign_self f (record { subscribers = (key id, address) ∷ []; pending = [] })
              (waiting_queue s z) m.pending_queues q,
    )

-- The manager after a notification was sent to one follower who has no session.
sent_to_offline :
    (m : NotificationManager) (n : Notification) (f : Bytes)
    → has n.username m.notifications ≡ true
    → find f m.pending_queues ≡ some empty_queue
    → let m' = send m n (f ∷ []) in
      (find f m'.pending_queues ≡ some (waiting_queue n.username (to_int m.next_id)))
      × ((a : ℕ) → m'.inboxes a ≡ m.inboxes a)
unfolding send_to store_count insert_notification empty_queue insert
sent_to_offline m n f known offline = (
  ap (λ r. find f r.pending_queues) (send-eq m n (f ∷ []) known)
      ∙ ap (λ o. find f (insert_for (created m n) (numbered m n) f o).0.pending_queues) offline
      ∙ find-assign_self f (waiting_queue n.username (to_int m.next_id)) empty_queue
          m.pending_queues offline,
  λ a.
      ap (λ r. r.inboxes a) (send-eq m n (f ∷ []) known)
      ∙ ap (λ o. (insert_for (created m n) (numbered m n) f o).0.inboxes a) offline,
)

-- Her one follower being offline, the notification waits in the sender's list.
stored_for_offline :
    (m : NotificationManager) (n : Notification) (f : Bytes)
    → has n.username m.notifications ≡ true
    → find f m.pending_queues ≡ some empty_queue
    → n.pending_count ≡ pos 1
    → notifications_of n.username (send m n (f ∷ []))
      ≡ notifications_of n.username m
        ++ record n { id = to_int m.next_id; pending_count = pos 1 } ∷ []
unfolding served_count empty_queue
stored_for_offline m n f known offline count =
    let old = notifications_of n.username m in
    let nobody : served_count m.pending_queues (f ∷ []) ≡ 0 =
      ap (λ o. if is_served o then suc zero else zero) offline in
    send-pending_count m n (f ∷ []) known (unfold contains in (refl, tt)) count
    ∙ ap
        (λ k.
          if (1 - k) == 0
          then old
          else old ++ record n { id = to_int m.next_id; pending_count = pos (1 - k) } ∷ [])
        nobody

-- A notification that a known sender sends to one follower alone, who has no session and
-- nothing pending, is in the queue of the session that the follower opens next, at its end,
-- with its id and its text; nothing is pending for her then, and the sender's list is as it
-- was before. Its pending count is one, and no notification of the list has the new id.
pub offline_delivery :
    (m : NotificationManager) (n : Notification) (f : Bytes) (id address : ℕ)
    → has n.username m.notifications ≡ true
    → find f m.pending_queues ≡ some empty_queue
    → n.pending_count ≡ pos 1
    → Fresh (to_int m.next_id) (notifications_of n.username m)
    → let m' = subscribe (send m n (f ∷ [])) f id address in
      (m'.inboxes address
        ≡ m.inboxes address ++ record n { id = to_int m.next_id; pending_count = pos 1 } ∷ [])
      × (notifications_of n.username m' ≡ notifications_of n.username m)
      × (find f m'.pending_queues
          ≡ some (record { subscribers = (key id, address) ∷ []; pending = [] }))
offline_delivery m n f id address known offline count fresh =
    let m₁ = send m n (f ∷ []) in
    let stored = record n { id = to_int m.next_id; pending_count = pos 1 } in
    let (queue, quiet) = sent_to_offline m n f known offline in
    let (inbox, list, rest) =
      subscribe_one m₁ n.username f (to_int m.next_id) (notifications_of n.username m) stored id
        address queue
        (find-of-list n.username m₁ (notifications_of n.username m) stored
          (stored_for_offline m n f known offline count))
        fresh refl refl in
    (inbox ∙ ap (λ l. l ++ stored ∷ []) (quiet address), list, rest)
