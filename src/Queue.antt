-- ===== src/Queue.antt =====
-- src/lib/Queue.hpp and src/lib/SyncAccess.hpp: a queue and a cell behind a mutex, so each method
-- is one step. What other threads do while a method waits is an argument.
pub mod Fifo
use twitter_clone.Prelude.{
  Bool, true, false, List, [], ◌∷◌, ◌++◌, Option, none, some, ℕ, length, if◌then◌else◌,
}

-- A wake-up of wait_for: at the timeout or not, and what was inserted meanwhile.
pub record Wakeup {ℓ} (T : Type ℓ) : Type ℓ where
  pub timeout : Bool
  pub new : List T

module _ {ℓ} {T : Type ℓ} where
  -- insert.
  unfoldable pub insert : T → List T → List T
  insert element queue = queue ++ element ∷ []

  -- The front, and the queue without it.
  abbrev pub pop : List T → Option T × List T
  pop [] = (none, [])
  pop (x ∷ xs) = (some x, xs)

  -- remove: waits while the queue is empty. The list holds what is inserted between two wake-ups;
  -- none where it is still waiting at the end of them.
  unfoldable pub remove : List (List T) → List T → Option T × List T
  remove inserted (x ∷ xs) = (some x, xs)
  remove [] [] = (none, [])
  remove (new ∷ inserted) [] = remove inserted new

  -- tryRemove: nothing is done where another thread holds the mutex.
  unfoldable pub try_remove : Bool → List T → Option T × List T
  try_remove locked queue = if locked then (none, queue) else pop queue

  -- The loop of tryRemoveFor, until the queue has an element or a wait has timed out. At a timeout
  -- the result is empty even where the queue is not.
  unfoldable pub try_remove_for : List (Wakeup T) → List T → Option T × List T
  try_remove_for wakeups (x ∷ xs) = (some x, xs)
  try_remove_for [] [] = (none, [])
  try_remove_for (w ∷ wakeups) [] =
      let again = try_remove_for wakeups w.new in if w.timeout then (none, w.new) else again

  unfoldable pub size : List T → ℕ
  size queue = length queue

  -- SyncAccess: set and get.
  unfoldable pub set : T → T → T
  set value cell = value

  unfoldable pub get : T → T
  get cell = cell
