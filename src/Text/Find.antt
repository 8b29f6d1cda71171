-- ===== src/Text/Find.antt =====
-- What `std::string::find` finds, and the prefix operations.
use native.Mathlib.Nat.{zero-add, suc-add, mod-eq_of_lt}
use twitter_clone.Prelude.{
  ℕ, suc, ◌+◌, ◌≤◌, ◌<◌, ◌≡◌, refl, ap, true, false, [], ◌∷◌, ◌++◌, some, arith, length, take, drop,
  Bytes, take_prefix, drop_prefix,
}
use twitter_clone.Text.{starts_with, find, has_prefix, remove_prefix, split_first, size_mod}

pub starts_with-append : (d s : Bytes) → starts_with d (d ++ s) ≡ true
unfolding starts_with
starts_with-append [] s = refl
starts_with-append (c ∷ d) s = ground (arith, starts_with-append d s)

starts_with_sound : (d s : Bytes) → starts_with d s ≡ true → s ≡ d ++ drop (length d) s
unfolding starts_with
starts_with_sound [] s h = refl
starts_with_sound (c ∷ d) [] h = cc
starts_with_sound (c ∷ d) (e ∷ s) h = ground (arith, starts_with_sound d s)

-- Removing a prefix that stands there leaves exactly the rest, and any other text is unchanged.
pub remove_prefix_lem :
    (s d : Bytes)
    → (remove_prefix (d ++ s) d ≡ s)
      × (has_prefix s d ≡ false → remove_prefix s d ≡ s)
      × (has_prefix s d ≡ true → d ++ remove_prefix s d ≡ s)
unfolding remove_prefix has_prefix
remove_prefix_lem s d = (
  ground (arith, starts_with-append d s, drop_prefix d s),
  λ h. ground arith,
  λ h. ground (arith, starts_with_sound d s),
)

pub drop_two : (h d rest : Bytes) → drop (length h + length d) (h ++ (d ++ rest)) ≡ rest
drop_two [] d rest = rw zero-add (drop_prefix d rest)
drop_two (c ∷ h) d rest = rw suc-add (drop_two h d rest)

pub find_sound :
    (d s : Bytes) (i : ℕ) → find d s ≡ some i → s ≡ take i s ++ (d ++ drop (i + length d) s)
unfolding find
find_sound [] [] ℕ.zero h = refl
find_sound [] [] (suc i) h = ground arith
find_sound (b ∷ d) [] i h = unfold starts_with in cc
find_sound d (c ∷ s) ℕ.zero h = rw zero-add (ground (arith, starts_with_sound d (c ∷ s)))
find_sound d (c ∷ s) (suc i) h = rw suc-add (ap (λ t. c ∷ t) (find_sound d s i (ground arith)))

-- No position of `h` begins an occurrence of `d` in `h` followed by `d` and `rest`.
abbrev pub Clear : Bytes → Bytes → Bytes → Type 0
Clear d [] rest = Unit {0}
Clear d (c ∷ h) rest = (starts_with d (c ∷ (h ++ (d ++ rest))) ≡ false) × Clear d h rest

-- The first occurrence is found behind a text that is clear of it.
pub find-Clear : (d h rest : Bytes) → Clear d h rest → find d (h ++ (d ++ rest)) ≡ some (length h)
unfolding find
find-Clear [] [] [] k = refl
find-Clear [] [] (c ∷ rest) k = refl
find-Clear (b ∷ d) [] rest k = ground (arith, starts_with-append (b ∷ d) rest)
find-Clear d (c ∷ h) rest k = ground (arith, find-Clear d h rest k.1)

find-le : (d s : Bytes) (i : ℕ) → find d s ≡ some i → i ≤ length s
unfolding find
find-le d [] i h = ground arith
find-le d (c ∷ s) ℕ.zero h = omega arith
find-le d (c ∷ s) (suc i) h = ground (arith, find-le d s i)

-- A text of one part, a delimiter that does not occur earlier, and a rest is split into the two.
pub split_first-Clear :
    (d h rest : Bytes)
    → Clear d h rest
    → length h + length d < size_mod
    → split_first (h ++ (d ++ rest)) d ≡ h ∷ rest ∷ []
unfolding split_first
split_first-Clear d h rest k fits =
    cc (find-Clear d h rest k, mod-eq_of_lt fits, take_prefix h (d ++ rest), drop_two h d rest)
