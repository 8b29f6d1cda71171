-- ===== src/Prelude/Strings.antt =====
-- Byte strings (`std::string`, C strings) as lists of byte values, their equality and order.
use Prim.Native.Char.{code}
use Prim.Native.String.{String}
use Prim.Native.Nat.{ℕ}
use mathlib.Core.Path.{◌≡◌, refl}
use mathlib.Core.Bool.{Bool, true, false, ◌&&◌}
use mathlib.Core.Logic.{◌↔◌, ◌≢◌}
use mathlib.Core.List.{List, [], ◌∷◌}
use native.Mathlib.Omega.{arith}
use twitter_clone.Prelude.Tests.{◌==◌, if◌then◌else◌, ltb}
use twitter_clone.Prelude.Lists.{All}

abbrev pub Bytes : Type 0
Bytes = List ℕ

-- The bytes of an ASCII literal.
abbrev pub codes : String → Bytes
codes String.[] = []
codes (String.◌∷◌ c s) = code c ∷ codes s

-- `operator==` of std::string.
unfoldable pub bytes_eq : Bytes → Bytes → Bool
bytes_eq [] [] = true
bytes_eq [] (d ∷ t) = false
bytes_eq (c ∷ s) [] = false
bytes_eq (c ∷ s) (d ∷ t) = c == d && bytes_eq s t

-- `operator<` of std::string: lexicographic.
unfoldable pub bytes_lt : Bytes → Bytes → Bool
bytes_lt [] [] = false
bytes_lt [] (d ∷ t) = true
bytes_lt (c ∷ s) [] = false
bytes_lt (c ∷ s) (d ∷ t) =
    let rest = bytes_lt s t in if ltb c d then true else if c == d then rest else false

pub bytes_eq_refl : (s : Bytes) → bytes_eq s s ≡ true
unfolding bytes_eq
bytes_eq_refl [] = refl
bytes_eq_refl (c ∷ s) = ground (arith, bytes_eq_refl s)

pub bytes_eq_sound : (s t : Bytes) → bytes_eq s t ≡ true → s ≡ t
unfolding bytes_eq
bytes_eq_sound [] [] h = refl
bytes_eq_sound [] (d ∷ t) h = cc
bytes_eq_sound (c ∷ s) [] h = cc
bytes_eq_sound (c ∷ s) (d ∷ t) h = ground (arith, bytes_eq_sound s t)

pub bytes_eq_iff : (s t : Bytes) → (bytes_eq s t ≡ true) ↔ (s ≡ t)
bytes_eq_iff s t = (bytes_eq_sound s t, λ e. ground (arith, bytes_eq_refl s))

pub bytes_eq_comm : (s t : Bytes) → bytes_eq s t ≡ bytes_eq t s
bytes_eq_comm s t = ground (arith, bytes_eq_iff s t, bytes_eq_iff t s)

pub bytes_lt_irrefl : (s : Bytes) → bytes_lt s s ≡ false
unfolding bytes_lt
bytes_lt_irrefl [] = refl
bytes_lt_irrefl (c ∷ s) = ground (arith, bytes_lt_irrefl s)

pub bytes_lt_trans :
    (s t u : Bytes) → bytes_lt s t ≡ true → bytes_lt t u ≡ true → bytes_lt s u ≡ true
unfolding bytes_lt
bytes_lt_trans [] [] u h k = cc
bytes_lt_trans [] (d ∷ t) [] h k = cc
bytes_lt_trans [] (d ∷ t) (e ∷ u) h k = refl
bytes_lt_trans (c ∷ s) [] u h k = cc
bytes_lt_trans (c ∷ s) (d ∷ t) [] h k = cc
bytes_lt_trans (c ∷ s) (d ∷ t) (e ∷ u) h k = ground (arith, bytes_lt_trans s t u)

-- Two strings neither of which is less are equal.
pub bytes_lt_total : (s t : Bytes) → bytes_lt s t ≡ false → bytes_lt t s ≡ false → s ≡ t
unfolding bytes_lt
bytes_lt_total [] [] h k = refl
bytes_lt_total [] (d ∷ t) h k = cc
bytes_lt_total (c ∷ s) [] h k = cc
bytes_lt_total (c ∷ s) (d ∷ t) h k = ground (arith, bytes_lt_total s t)

abbrev pub Lacks : ℕ → Bytes → Type 0
Lacks b = All (λ c. c ≢ b)
