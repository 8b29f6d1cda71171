-- ===== src/Prelude/Distinct.antt =====
-- Maps whose keys are distinct.
use mathlib.Core.Path.{◌≡◌, refl, ◌∙◌}
use mathlib.Core.Bool.{false}
use mathlib.Core.List.{[], ◌∷◌, ◌++◌, map}
use mathlib.Core.Option.{none}
use native.Mathlib.Omega.{arith}
use twitter_clone.Prelude.Strings.{Bytes, bytes_eq, bytes_eq_comm}
use twitter_clone.Prelude.Map.{Map, find, emplace}

-- No key stands in the map twice.
abbrev pub DistinctKeys {ℓ} : {V : Type ℓ} → Map V → Type ℓ
DistinctKeys [] = Unit
DistinctKeys ((k, v) ∷ m) = (find k m ≡ none) × DistinctKeys m

module _ {ℓ} {V : Type ℓ} where
  abbrev pub NewTo : Map V → Map V → Type ℓ
  NewTo acc [] = Unit
  NewTo acc ((k, v) ∷ m) = (find k acc ≡ none) × NewTo acc m

  pub emplace-new :
      (k : Bytes) (v : V) (m : Map V) → find k m ≡ none → emplace k v m ≡ m ++ (k, v) ∷ []
  unfolding emplace find
  emplace-new k v [] h = refl
  emplace-new k v ((j, w) ∷ m) h = ground (arith, emplace-new k v m)

  pub find-concat :
      (k j : Bytes) (v : V) (m : Map V)
      → find j m ≡ none
      → bytes_eq k j ≡ false
      → find j (m ++ (k, v) ∷ []) ≡ none
  unfolding find
  find-concat k j v [] h e = ground arith
  find-concat k j v ((i, w) ∷ m) h e = ground (arith, find-concat k j v m)

  pub absent :
      (j k : Bytes) (w : V) (m : Map V)
      → find k ((j, w) ∷ m) ≡ none
      → (bytes_eq j k ≡ false) × (find k m ≡ none)
  unfolding find
  absent j k w m h = ground arith

  pub NewTo-concat :
      (k : Bytes) (v : V) (acc m : Map V)
      → NewTo acc m
      → find k m ≡ none
      → NewTo (acc ++ (k, v) ∷ []) m
  unfolding find
  NewTo-concat k v acc [] h n = tt
  NewTo-concat k v acc ((j, w) ∷ m) h n =
      let (apart, rest) = absent j k w m n in
      (find-concat k j v acc h.0 (bytes_eq_comm k j ∙ apart), NewTo-concat k v acc m h.1 rest)

  abbrev pub map_values : (V → V) → Map V → Map V
  map_values g m = map (λ e. (e.0, g e.1)) m

  pub NewTo-empty : (m : Map V) → NewTo [] m
  unfolding find
  NewTo-empty [] = tt
  NewTo-empty (e ∷ m) = (refl, NewTo-empty m)
