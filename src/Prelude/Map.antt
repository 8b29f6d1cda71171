-- ===== src/Prelude/Map.antt =====
-- `std::unordered_map` with string keys, as an association list. The order of iteration, which
-- the C++ library leaves open, is the order of insertion here.
use mathlib.Core.Path.{◌≡◌}
use mathlib.Core.Bool.{Bool, true, false}
use mathlib.Core.List.{List, [], ◌∷◌, map}
use mathlib.Core.Option.{Option, none, some}
use native.Mathlib.Omega.{arith}
use mathlib.Core.Logic.{inl, inr}
use twitter_clone.Prelude.Tests.{if◌then◌else◌, Option-cases}
use twitter_clone.Prelude.Strings.{Bytes, bytes_eq, bytes_eq_iff}

abbrev pub Map {ℓ} : Type ℓ → Type ℓ
Map V = List (Bytes × V)

module _ {ℓ} {V : Type ℓ} where
  unfoldable pub find : Bytes → Map V → Option V
  find k [] = none
  find k ((j, v) ∷ m) = if bytes_eq j k then some v else find k m

  -- `count(k) == 1`.
  unfoldable pub has : Bytes → Map V → Bool
  unfolding find
  has k m = elim (find k m) [ none ↦ false | some v ↦ true ]

  -- `emplace`: an entry that is there stays.
  unfoldable pub emplace : Bytes → V → Map V → Map V
  emplace k v [] = (k, v) ∷ []
  emplace k v ((j, w) ∷ m) = if bytes_eq j k then (j, w) ∷ m else (j, w) ∷ emplace k v m

  -- A write through `m[k]` where `k` is present; a missing key is left missing.
  unfoldable pub assign : Bytes → V → Map V → Map V
  assign k v [] = []
  assign k v ((j, w) ∷ m) = if bytes_eq j k then (j, v) ∷ m else (j, w) ∷ assign k v m

  pub keys : Map V → List Bytes
  keys m = map (λ e. e.0) m

  pub find-emplace :
      (k j : Bytes) (v : V) (m : Map V)
      → find j (emplace k v m)
        ≡ (if bytes_eq k j then elim (find j m) [ none ↦ some v | some w ↦ some w ] else find j m)
  unfolding find emplace
  find-emplace k j v [] = ground (arith, bytes_eq_iff k j)
  find-emplace k j v ((i, w) ∷ m) =
      ground (arith, bytes_eq_iff k j, bytes_eq_iff i k, bytes_eq_iff i j, find-emplace k j v m)

  pub find-assign :
      (k j : Bytes) (v : V) (m : Map V)
      → find j (assign k v m)
        ≡ (if bytes_eq k j then elim (find j m) [ none ↦ none | some w ↦ some v ] else find j m)
  unfolding find assign
  find-assign k j v [] = ground (arith, bytes_eq_iff k j)
  find-assign k j v ((i, w) ∷ m) =
      ground (arith, bytes_eq_iff k j, bytes_eq_iff i k, bytes_eq_iff i j, find-assign k j v m)

  pub find-assign_self :
      (k : Bytes) (v w : V) (m : Map V) → find k m ≡ some w → find k (assign k v m) ≡ some v
  find-assign_self k v w m e = ground (arith, find-assign k k v m, bytes_eq_iff k k)

  pub find-assign_ne :
      (k j : Bytes) (v : V) (m : Map V) → bytes_eq k j ≡ false → find j (assign k v m) ≡ find j m
  find-assign_ne k j v m e = ground (arith, find-assign k j v m)

  pub has-find : (k : Bytes) (m : Map V) → has k m ≡ true → (v : V) × (find k m ≡ some v)
  unfolding has
  has-find k m e = elim (Option-cases (find k m)) [
    | inl missing ↦ absurd (ground arith)
    | inr found ↦ found
  ]
