-- ===== src/Prelude/Lists.antt =====
-- Lists measured and cut by native numbers, under the library's names, and predicates on lists.
use Prim.Native.Nat.{ℕ, zero, suc, ◌+◌, ◌-◌, ◌≤◌}
use mathlib.Core.Bool.{Bool, true, false}
use mathlib.Core.Path.{◌≡◌, refl, ap}
use mathlib.Core.List.{List, [], ◌∷◌, ◌++◌}
use mathlib.Core.Option.{Option, none, some}
use native.Mathlib.Omega.{arith}

module _ {ℓ} {A : Type ℓ} where
  abbrev pub length : List A → ℕ
  length [] = 0
  length (x ∷ xs) = suc (length xs)

  abbrev pub take : ℕ → List A → List A
  take zero xs = []
  take (suc n) [] = []
  take (suc n) (x ∷ xs) = x ∷ take n xs

  abbrev pub drop : ℕ → List A → List A
  drop zero xs = xs
  drop (suc n) [] = []
  drop (suc n) (x ∷ xs) = drop n xs

  abbrev pub get_elem? : List A → ℕ → Option A
  get_elem? [] i = none
  get_elem? (x ∷ xs) zero = some x
  get_elem? (x ∷ xs) (suc i) = get_elem? xs i

  -- The list without its last element.
  abbrev pub init : List A → List A
  init [] = []
  init (x ∷ []) = []
  init (x ∷ y ∷ xs) = x ∷ init (y ∷ xs)

  abbrev pub is_empty : List A → Bool
  is_empty [] = true
  is_empty (x ∷ xs) = false

module _ {ℓ} {A : Type ℓ} where
  pub length-append : (xs ys : List A) → length (xs ++ ys) ≡ length xs + length ys
  length-append [] ys = omega arith
  length-append (x ∷ xs) ys = omega (arith, length-append xs ys)

  pub take-append-drop : (n : ℕ) (xs : List A) → take n xs ++ drop n xs ≡ xs
  take-append-drop zero xs = refl
  take-append-drop (suc n) [] = refl
  take-append-drop (suc n) (x ∷ xs) = ap (λ t. x ∷ t) (take-append-drop n xs)

  pub length-drop : (n : ℕ) (xs : List A) → length (drop n xs) ≡ length xs - n
  length-drop zero xs = omega arith
  length-drop (suc n) [] = omega arith
  length-drop (suc n) (x ∷ xs) = omega (arith, length-drop n xs)

  pub length-take-le : (n : ℕ) (xs : List A) → length (take n xs) ≤ n
  length-take-le zero xs = omega arith
  length-take-le (suc n) [] = omega arith
  length-take-le (suc n) (x ∷ xs) = omega (arith, length-take-le n xs)

  pub length-take : (n : ℕ) (xs : List A) → n ≤ length xs → length (take n xs) ≡ n
  length-take zero xs h = omega arith
  length-take (suc n) [] h = absurd (omega arith)
  length-take (suc n) (x ∷ xs) h = omega (arith, length-take n xs (omega arith))

  pub take_prefix : (xs ys : List A) → take (length xs) (xs ++ ys) ≡ xs
  take_prefix [] ys = refl
  take_prefix (x ∷ xs) ys = ap (λ t. x ∷ t) (take_prefix xs ys)

  pub drop_prefix : (xs ys : List A) → drop (length xs) (xs ++ ys) ≡ ys
  drop_prefix [] ys = refl
  drop_prefix (x ∷ xs) ys = drop_prefix xs ys

  pub take_all : (n : ℕ) (xs : List A) → length xs ≤ n → take n xs ≡ xs
  take_all zero [] h = refl
  take_all zero (x ∷ xs) h = absurd (omega arith)
  take_all (suc n) [] h = refl
  take_all (suc n) (x ∷ xs) h = ap (λ t. x ∷ t) (take_all n xs (omega arith))

module _ {ℓ κ} {A : Type ℓ} (P : A → Type κ) where
  abbrev pub All : List A → Type κ
  All [] = Unit
  All (x ∷ xs) = P x × All xs

  pub All-append : (xs ys : List A) → All xs → All ys → All (xs ++ ys)
  All-append [] ys hx hy = hy
  All-append (x ∷ xs) ys hx hy = (hx.0, All-append xs ys hx.1 hy)

-- Splitting off a prefix by a test.
module _ {ℓ} {A : Type ℓ} (p : A → Bool) where
  abbrev pub take_while : List A → List A
  take_while [] = []
  take_while (x ∷ xs) = elim (p x) [ true ↦ x ∷ take_while xs | false ↦ [] ]

  abbrev pub drop_while : List A → List A
  drop_while [] = []
  drop_while (x ∷ xs) = elim (p x) [ true ↦ drop_while xs | false ↦ x ∷ xs ]

  -- The list does not begin with an element that passes.
  abbrev pub Stops : List A → Type 0
  Stops [] = Unit
  Stops (x ∷ xs) = p x ≡ false

  abbrev pub Passes : List A → Type 0
  Passes [] = Unit
  Passes (x ∷ xs) = (p x ≡ true) × Passes xs

  pub take_while_stop : (ys : List A) → Stops ys → take_while ys ≡ []
  take_while_stop [] h = refl
  take_while_stop (y ∷ ys) h = ground arith

  pub drop_while_stop : (ys : List A) → Stops ys → drop_while ys ≡ ys
  drop_while_stop [] h = refl
  drop_while_stop (y ∷ ys) h = ground arith

  pub take_while-append : (xs ys : List A) → Passes xs → Stops ys → take_while (xs ++ ys) ≡ xs
  take_while-append [] ys h s = take_while_stop ys s
  take_while-append (x ∷ xs) ys h s = ground (arith, take_while-append xs ys h.1 s)

  pub drop_while-append : (xs ys : List A) → Passes xs → Stops ys → drop_while (xs ++ ys) ≡ ys
  drop_while-append [] ys h s = drop_while_stop ys s
  drop_while-append (x ∷ xs) ys h s = ground (arith, drop_while-append xs ys h.1 s)

  pub take_while-on : (x : A) (xs : List A) → p x ≡ true → take_while (x ∷ xs) ≡ x ∷ take_while xs
  take_while-on x xs h = ground arith

  pub take_while-off : (x : A) (xs : List A) → p x ≡ false → take_while (x ∷ xs) ≡ []
  take_while-off x xs h = ground arith
