-- ===== src/Queue/Fifo.antt =====
-- No method of the queue loses or reorders an element.
use twitter_clone.Prelude.{
  ◌≡◌, refl, true, false, List, [], ◌∷◌, Option, none, some, arith, Bool-cases, inl, inr,
}
use twitter_clone.Queue.{try_remove_for, Wakeup}

module _ {ℓ} {T : Type ℓ} where
  -- What a method took out, in front of what it left.
  abbrev pub taken_and_left : Option T × List T → List T
  taken_and_left (none, queue) = queue
  taken_and_left (some x, queue) = x ∷ queue

  -- What is inserted while a method waits: it stops waiting at the first element or timeout.
  abbrev pub arrived : List (Wakeup T) → List T → List T
  arrived wakeups (x ∷ xs) = x ∷ xs
  arrived [] [] = []
  arrived (w ∷ wakeups) [] = elim w.timeout [ true ↦ w.new | false ↦ arrived wakeups w.new ]

  -- tryRemoveFor loses and reorders nothing, also where it times out while an element arrives; and
  -- an element that was there at the call is always handed out.
  pub try_remove_for_lem :
      (wakeups : List (Wakeup T)) (queue : List T)
      → (taken_and_left (try_remove_for wakeups queue) ≡ arrived wakeups queue)
        × ((x : T) (xs : List T) → queue ≡ x ∷ xs → try_remove_for wakeups queue ≡ (some x, xs))
  unfolding try_remove_for
  try_remove_for_lem wakeups (x ∷ xs) = (refl, λ y ys e. cc)
  try_remove_for_lem [] [] = (refl, λ y ys e. absurd (cc))
  try_remove_for_lem (w ∷ wakeups) [] = (
    elim (Bool-cases w.timeout) [
      | inl e ↦ ground arith
      | inr e ↦ ground (arith, (try_remove_for_lem wakeups w.new).0)
    ],
    λ y ys e. absurd (cc),
  )
