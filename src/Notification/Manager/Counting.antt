-- ===== src/Notification/Manager/Counting.antt =====
-- How many users a stored notification still waits for.
use twitter_clone.Prelude.{
  ℕ, suc, ◌+◌, ◌-◌, ◌≤◌, ◌<◌, ◌≡◌, refl, ap, ◌∙◌, Bool, true, false, not, List, [], ◌∷◌, ◌++◌,
  Option, none, some, arith, ◌==◌, if◌then◌else◌, length, init, is_empty, Bytes, bytes_eq_iff, ℤ,
  pos, dec, to_int, ◌%◌, ◌^◌, Bool-cases, inl, inr,
}
use twitter_clone.Prelude.Map.{Map, find, has, assign, find-assign_self, find-assign_ne, has-find}
use twitter_clone.Profile.Followers.{contains, Distinct}
use twitter_clone.Notification.{Notification}
use twitter_clone.Notification.Queues.{NotificationQueue, insert_notification}
use twitter_clone.Notification.Manager.{
  NotificationManager, notifications_of, create_notification, get_next_id, insert_for, send_to,
  store_count, set_last_count, none_waits, list_or_empty, send,
}

-- A user with a session is served at once.
abbrev pub is_served : Option NotificationQueue → Bool
is_served none = false
is_served (some q) = not (is_empty q.subscribers)

unfoldable pub served_count : Map NotificationQueue → List Bytes → ℕ
served_count queues [] = 0
served_count queues (f ∷ fs) =
    let rest = served_count queues fs in if is_served (find f queues) then suc rest else rest

served_count-assign :
    (queues : Map NotificationQueue) (f : Bytes) (q : NotificationQueue) (fs : List Bytes)
    → contains fs f ≡ false
    → served_count (assign f q queues) fs ≡ served_count queues fs
unfolding served_count contains
served_count-assign queues f q [] h = refl
served_count-assign queues f q (g ∷ fs) h = ground (
  arith,
  served_count-assign queues f q fs,
  find-assign_ne f g q queues,
  bytes_eq_iff f g,
  bytes_eq_iff g f,
)

served_count-le :
    (queues : Map NotificationQueue) (fs : List Bytes) → served_count queues fs ≤ length fs
unfolding served_count
served_count-le queues [] = omega arith
served_count-le queues (f ∷ fs) = ground (arith, served_count-le queues fs)

insert_for-sent :
    (m : NotificationManager) (n : Notification) (f : Bytes) (o : Option NotificationQueue)
    → (insert_for m n f o).1 ≡ is_served o
unfolding insert_notification
insert_for-sent m n f none = refl
insert_for-sent m n f (some q) = ground arith

insert_for-keeps :
    (m : NotificationManager) (n : Notification) (f : Bytes) (o : Option NotificationQueue)
    (fs : List Bytes)
    → contains fs f ≡ false
    → ((insert_for m n f o).0.notifications ≡ m.notifications)
      × (served_count (insert_for m n f o).0.pending_queues fs ≡ served_count m.pending_queues fs)
insert_for-keeps m n f none fs h = (refl, refl)
insert_for-keeps m n f (some q) fs h =
    (refl, served_count-assign m.pending_queues f (insert_notification q n m.inboxes).0 fs h)

send_to-notifications :
    (m : NotificationManager) (n : Notification) (fs : List Bytes) (count : ℤ)
    → (send_to m n fs count).0.notifications ≡ m.notifications
unfolding send_to
send_to-notifications m n [] count = refl
send_to-notifications m n (f ∷ fs) count =
    let r = insert_for m n f (find f m.pending_queues) in
    send_to-notifications r.0 n fs (if r.1 then dec count else count)
    ∙ (insert_for-keeps m n f (find f m.pending_queues) [] (unfold contains in refl)).0

dec-pos : (c : ℕ) → 0 < c → dec (pos c) ≡ pos (c - 1)
dec-pos c h = ground arith

module _ (m : NotificationManager) (n : Notification) (f : Bytes) (fs : List Bytes) where
  abbrev round : NotificationManager × Bool
  round = insert_for m n f (find f m.pending_queues)

  send_to-step :
      (count : ℤ) (b : Bool)
      → is_served (find f m.pending_queues) ≡ b
      → (send_to m n (f ∷ fs) count).1 ≡ (send_to round.0 n fs (if b then dec count else count)).1
  unfolding send_to
  send_to-step count b e =
      ap (λ x. (send_to round.0 n fs (if x then dec count else count)).1)
        (insert_for-sent m n f (find f m.pending_queues) ∙ e)

  served_count-step :
      (b : Bool)
      → is_served (find f m.pending_queues) ≡ b
      → served_count m.pending_queues (f ∷ fs)
        ≡ (if b then suc (served_count m.pending_queues fs) else served_count m.pending_queues fs)
  unfolding served_count
  served_count-step b e =
      ap
        (λ x.
          if x then suc (served_count m.pending_queues fs) else served_count m.pending_queues fs)
        e

-- The count falls by one for each follower who is served at once.
send_to-count :
    (m : NotificationManager) (n : Notification) (fs : List Bytes) (c : ℕ)
    → Distinct fs
    → length fs ≤ c
    → (send_to m n fs (pos c)).1 ≡ pos (c - served_count m.pending_queues fs)
send_to-count m n [] c d h = unfold send_to served_count in ap pos (omega arith)
send_to-count m n (f ∷ fs) c d h =
    let r = insert_for m n f (find f m.pending_queues) in
    let same = (insert_for-keeps m n f (find f m.pending_queues) fs d.0).1 in
    elim (Bool-cases (is_served (find f m.pending_queues))) [
      | inl e ↦
          send_to-step m n f fs (pos c) true e
          ∙ ap (λ z. (send_to r.0 n fs z).1) (dec-pos c (omega arith))
          ∙ send_to-count r.0 n fs (c - 1) d.1 (omega arith)
          ∙ ap pos (omega (arith, same, served_count-step m n f fs true e))
      | inr e ↦
          send_to-step m n f fs (pos c) false e
          ∙ send_to-count r.0 n fs c d.1 (omega arith)
          ∙ ap pos (omega (arith, same, served_count-step m n f fs false e))
    ]

set_last_count-concat :
    (count : ℤ) (ns : List Notification) (n : Notification)
    → set_last_count count (ns ++ n ∷ []) ≡ ns ++ record n { pending_count = count } ∷ []
unfolding set_last_count
set_last_count-concat count [] n = refl
set_last_count-concat count (o ∷ []) n = refl
set_last_count-concat count (o ∷ p ∷ ns) n =
    ap (λ t. o ∷ t) (set_last_count-concat count (p ∷ ns) n)

init-concat : (ns : List Notification) (n : Notification) → init (ns ++ n ∷ []) ≡ ns
init-concat [] n = refl
init-concat (o ∷ []) n = refl
init-concat (o ∷ p ∷ ns) n = ap (λ t. o ∷ t) (init-concat (p ∷ ns) n)

-- The notification as it is stored and delivered: with its id.
abbrev pub numbered : NotificationManager → Notification → Notification
numbered m n = record n { id = to_int m.next_id }

-- The manager after createNotification, for a known sender.
abbrev pub created : NotificationManager → Notification → NotificationManager
created m n = record m {
  next_id = (m.next_id + 1) % 2 ^ 32;
  notifications =
      assign n.username (notifications_of n.username m ++ numbered m n ∷ []) m.notifications;
}

-- send for a known sender, in one equation.
pub send-eq :
    (m : NotificationManager) (n : Notification) (fs : List Bytes)
    → has n.username m.notifications ≡ true
    → let r = send_to (created m n) (numbered m n) fs n.pending_count in
      let m' = store_count n.username r.1 r.0 in
      send m n fs ≡ record m' { updates = m'.updates + 1 }
unfolding send create_notification get_next_id
send-eq m n fs known = rw known

store_count-of :
    (s : Bytes) (count : ℤ) (m : NotificationManager) (ns : List Notification)
    → find s m.notifications ≡ some ns
    → notifications_of s (store_count s count m)
      ≡ (if none_waits count then init ns else set_last_count count ns)
unfolding store_count notifications_of
store_count-of s count m ns e =
    ap list_or_empty (
      find-assign_self s
        (if none_waits count
          then init (list_or_empty (find s m.notifications))
          else set_last_count count (list_or_empty (find s m.notifications)))
        ns m.notifications e)
    ∙ ap
        (λ o.
          if none_waits count
          then init (list_or_empty o)
          else set_last_count count (list_or_empty o))
        e

find-created :
    (m : NotificationManager) (n : Notification) (fs : List Bytes) (count : ℤ)
    → has n.username m.notifications ≡ true
    → find n.username (send_to (created m n) (numbered m n) fs count).0.notifications
      ≡ some (notifications_of n.username m ++ numbered m n ∷ [])
find-created m n fs count known =
    let (old, e) = has-find n.username m.notifications known in
    ap (find n.username) (send_to-notifications (created m n) (numbered m n) fs count)
    ∙ find-assign_self n.username (notifications_of n.username m ++ numbered m n ∷ []) old
        m.notifications e

last_list :
    (w : ℕ) (ns : List Notification) (n : Notification)
    → (if none_waits (pos w) then init (ns ++ n ∷ []) else set_last_count (pos w) (ns ++ n ∷ []))
      ≡ (if w == 0 then ns else ns ++ record n { pending_count = pos w } ∷ [])
last_list w ns n = ground (arith, init-concat ns n, set_last_count-concat (pos w) ns n)

-- After a notification of a known sender was sent to distinct followers, with their number as its
-- count, it stands at the end of the sender's list if someone still waits for it, with the number
-- of those who do; otherwise the list is as it was.
pub send-pending_count :
    (m : NotificationManager) (n : Notification) (fs : List Bytes)
    → has n.username m.notifications ≡ true
    → Distinct fs
    → n.pending_count ≡ pos (length fs)
    → let waiting = length fs - served_count m.pending_queues fs in
      notifications_of n.username (send m n fs) ≡ (
        if waiting == 0
        then notifications_of n.username m
        else notifications_of n.username m
          ++ record n { id = to_int m.next_id; pending_count = pos waiting } ∷ [])
send-pending_count m n fs known d count =
    let waiting = length fs - served_count m.pending_queues fs in
    let r = send_to (created m n) (numbered m n) fs n.pending_count in
    let total : r.1 ≡ pos waiting =
      ap (λ z. (send_to (created m n) (numbered m n) fs z).1) count
      ∙ send_to-count (created m n) (numbered m n) fs (length fs) d (omega arith) in
    ap (notifications_of n.username) (send-eq m n fs known)
    ∙ unfold notifications_of in
      store_count-of n.username r.1 r.0 _ (find-created m n fs n.pending_count known)
      ∙ ap
          (λ z.
            if none_waits z
            then init (notifications_of n.username m ++ numbered m n ∷ [])
            else set_last_count z (notifications_of n.username m ++ numbered m n ∷ []))
          total
      ∙ last_list waiting (notifications_of n.username m) (numbered m n)
