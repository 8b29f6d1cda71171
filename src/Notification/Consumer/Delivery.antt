-- ===== src/Notification/Consumer/Delivery.antt =====
-- What the thread sends, and a notification on its way from the sender to the client's feed.
use twitter_clone.Prelude.{
  ℕ, zero, suc, ◌≡◌, refl, sym, ap, ◌∙◌, List, [], ◌∷◌, ◌++◌, Option, none, some, length, take,
  append_assoc, append-nil,
}
use twitter_clone.Queue.{Wakeup, try_remove_for}
use twitter_clone.Queue.Fifo.{arrived, taken_and_left, try_remove_for_lem}
use twitter_clone.Packet.{Packet, make, c_str}
use twitter_clone.Packet.Types.{data_type}
use twitter_clone.Notification.{Notification, serialize}
use twitter_clone.Notification.Consumer.{Round, packet_of, send_taken, consume}

-- The packets carry the notifications, in their order.
abbrev pub Carries : List Packet → List Notification → Type 0
Carries [] [] = Unit
Carries [] (n ∷ ns) = ⊥
Carries (p ∷ ps) [] = ⊥
Carries (p ∷ ps) (n ∷ ns) = (p.type ≡ data_type) × (p.payload ≡ c_str (serialize n)) × Carries ps ns

-- What is inserted while it waits: it only waits where the queue is empty.
abbrev pub waited : List (Wakeup Notification) → List Notification → List Notification
waited wakeups [] = arrived wakeups []
waited wakeups (x ∷ xs) = []

abbrev pub arrivals : List Round → List Notification → List Notification
arrivals [] queue = []
arrivals (r ∷ rounds) queue =
    r.before
    ++ (waited r.wakeups (queue ++ r.before)
        ++ arrivals rounds (try_remove_for r.wakeups (queue ++ r.before)).1)

-- What is sent of a queue: all that is in it and arrives is sent in order or still there, and at
-- least as many as there are rounds of what was in it.
abbrev pub SentInOrder : List Round → List Notification → List Packet × List Notification → Type 0
SentInOrder rounds queue (sent, left) =
    (ns : List Notification) × Carries sent ns
    × (ns ++ left ≡ queue ++ arrivals rounds queue)
    × (more : List Notification) × (ns ≡ take (length rounds) queue ++ more)

take-more :
    (n : ℕ) (xs ys : List Notification)
    → (more : List Notification) × (take n (xs ++ ys) ≡ take n xs ++ more)
take-more zero xs ys = ([], refl)
take-more (suc n) [] ys = (take (suc n) ys, refl)
take-more (suc n) (x ∷ xs) ys = let (more, e) = take-more n xs ys in (more, ap (λ z. x ∷ z) e)

-- One round, from the queue as it is when the thread tries to remove.
abbrev RoundInOrder :
    Round → List Round → List Notification → Option Notification × List Notification → Type 0
RoundInOrder r rounds queue taken =
    (ns : List Notification) × Carries (send_taken r.now (λ q. consume rounds q) taken).0 ns
    × (ns ++ (send_taken r.now (λ q. consume rounds q) taken).1
        ≡ queue ++ (waited r.wakeups queue ++ arrivals rounds taken.1))
    × (more : List Notification) × (ns ≡ take (suc (length rounds)) queue ++ more)

-- The queue was empty when the wait began.
empty-RoundInOrder :
    (r : Round) (rounds : List Round) (taken : Option Notification × List Notification)
    → taken_and_left taken ≡ arrived r.wakeups []
    → SentInOrder rounds taken.1 (consume rounds taken.1)
    → RoundInOrder r rounds [] taken
unfolding packet_of make
empty-RoundInOrder r rounds (none, q) e (ns, sent, all, more, first) =
    (ns, sent, all ∙ ap (λ l. l ++ arrivals rounds q) e, ns, refl)
empty-RoundInOrder r rounds (some n, q) e (ns, sent, all, more, first) = (
  n ∷ ns,
  (refl, refl, sent),
  ap (λ l. n ∷ l) all ∙ ap (λ l. l ++ arrivals rounds q) e,
  n ∷ ns,
  refl,
)

round-RoundInOrder :
    (r : Round) (rounds : List Round) (queue : List Notification)
    → ((q : List Notification) → SentInOrder rounds q (consume rounds q))
    → RoundInOrder r rounds queue (try_remove_for r.wakeups queue)
unfolding try_remove_for packet_of make
round-RoundInOrder r rounds [] later =
    empty-RoundInOrder r rounds (try_remove_for r.wakeups []) (try_remove_for_lem r.wakeups []).0
      (later (try_remove_for r.wakeups []).1)
round-RoundInOrder r rounds (n ∷ q) later =
    let (ns, sent, all, more, first) = later q in
    (n ∷ ns, (refl, refl, sent), ap (λ l. n ∷ l) all, more, ap (λ l. n ∷ l) first)

-- Whatever arrives and however often it waits in vain, all that is in the queue and all that arrives
-- is, in this order, sent or still in the queue; and of what was in the queue at first, it sends one
-- notification a round until all are sent.
pub consume-SentInOrder :
    (rounds : List Round) (queue : List Notification)
    → SentInOrder rounds queue (consume rounds queue)
unfolding consume
consume-SentInOrder [] queue = ([], tt, sym (append-nil queue), [], refl)
consume-SentInOrder (r ∷ rounds) queue =
    let (ns, sent, all, more, first) =
      round-RoundInOrder r rounds (queue ++ r.before) (λ q. consume-SentInOrder rounds q) in
    let (others, t) = take-more (suc (length rounds)) queue r.before in
    (
      ns,
      sent,
      all ∙ append_assoc queue r.before _,
      others ++ more,
      first ∙ ap (λ l. l ++ more) t ∙ append_assoc (take (suc (length rounds)) queue) others more,
    )
