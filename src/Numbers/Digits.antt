-- ===== src/Numbers/Digits.antt =====
-- The digits that are printed, and their value.
use twitter_clone.Prelude.{
  ℕ, zero, suc, ◌+◌, ◌-◌, ◌*◌, ◌/◌, ◌%◌, ◌^◌, ◌≤◌, ◌<◌, ◌≡◌, ◌≢◌, refl, [], ◌∷◌, ◌++◌, arith,
  length, length-append, Passes, Bytes, All, All-append, Lacks, ℤ, pos, negsuc,
}
use mathlib.Core.List.{concat-ne-nil}
use native.Mathlib.Nat.{pow-suc}
use twitter_clone.Numbers.{
  digit, digits, print, print_int, zeros, print_padded, is_digit, value_from,
}

abbrev pub IsDigit : ℕ → Type 0
IsDigit c = (b'0' ≤ c) × (c ≤ b'9')

value_from-append : (n : ℕ) (s t : Bytes) → value_from n (s ++ t) ≡ value_from (value_from n s) t
unfolding value_from
value_from-append n [] t = refl
value_from-append n (c ∷ s) t = value_from-append (n * 10 + (c - b'0')) s t

value_from-digits : (f n : ℕ) → n < f → value_from 0 (digits f n) ≡ n
unfolding digits value_from
value_from-digits zero n h = absurd (omega arith)
value_from-digits (suc f) n h = ground (
  arith,
  value_from-digits f (n / 10),
  value_from-append 0 (digits f (n / 10)) (digit (n % 10) ∷ []),
)

-- The printed digits have the value of the number.
pub value_from-print : (n : ℕ) → value_from 0 (print n) ≡ n
unfolding print
value_from-print n = value_from-digits (suc n) n (omega arith)

digits-IsDigit : (f n : ℕ) → All IsDigit (digits f n)
unfolding digits
digits-IsDigit zero n = tt
digits-IsDigit (suc f) n =
    ground (
      arith,
      digits-IsDigit f (n / 10),
      All-append IsDigit (digits f (n / 10)) (digit (n % 10) ∷ []),
    )

pub print-IsDigit : (n : ℕ) → All IsDigit (print n)
unfolding print
print-IsDigit n = digits-IsDigit (suc n) n

pub print-ne-nil : (n : ℕ) → print n ≢ []
unfolding print digits
print-ne-nil n = ground (arith, concat-ne-nil (digit (n % 10)) (digits n (n / 10)))

pub Passes-digits : (s : Bytes) → All IsDigit s → Passes is_digit s
unfolding is_digit
Passes-digits [] h = tt
Passes-digits (c ∷ s) h = (ground arith, Passes-digits s h.1)

zeros-IsDigit : (n : ℕ) → All IsDigit (zeros n)
unfolding zeros
zeros-IsDigit zero = tt
zeros-IsDigit (suc n) = (omega arith, zeros-IsDigit n)

pub print_padded-IsDigit : (n : ℕ) → All IsDigit (print_padded n)
unfolding print_padded
print_padded-IsDigit n =
    All-append IsDigit (zeros (10 - length (print n))) (print n)
      (zeros-IsDigit (10 - length (print n))) (print-IsDigit n)

value_from-zeros : (n : ℕ) (s : Bytes) → value_from 0 (zeros n ++ s) ≡ value_from 0 s
unfolding zeros value_from
value_from-zeros zero s = refl
value_from-zeros (suc n) s = value_from-zeros n s

pub value_from-print_padded : (n : ℕ) → value_from 0 (print_padded n) ≡ n
unfolding print_padded
value_from-print_padded n =
    ground (arith, value_from-zeros (10 - length (print n)) (print n), value_from-print n)

length-digits : (f n k : ℕ) → 0 < k → n < 10 ^ k → length (digits f n) ≤ k
unfolding digits
length-digits zero n k k_pos h = omega arith
length-digits (suc f) n zero k_pos h = elim k_pos [ ]
length-digits (suc f) n (suc zero) k_pos h = ground arith
length-digits (suc f) n (suc (suc k)) k_pos h = ground (
  arith,
  pow-suc 10 (suc k),
  length-append (digits f (n / 10)) (digit (n % 10) ∷ []),
  length-digits f (n / 10) (suc k),
)

pub length-print : (n k : ℕ) → 0 < k → n < 10 ^ k → length (print n) ≤ k
unfolding print
length-print n k = length-digits (suc n) n k

length-zeros : (n : ℕ) → length (zeros n) ≡ n
unfolding zeros
length-zeros zero = refl
length-zeros (suc n) = omega (arith, length-zeros n)

-- A number below 2^32 is printed in exactly ten places.
pub length-print_padded : (n : ℕ) → n < 2 ^ 32 → length (print_padded n) ≡ 10
unfolding print_padded
length-print_padded n h = omega (
  arith,
  length-append (zeros (10 - length (print n))) (print n),
  length-zeros (10 - length (print n)),
  length-print n 10 (omega arith) (omega arith),
)

append-ne-nil : (xs ys : Bytes) → ys ≢ [] → xs ++ ys ≢ []
append-ne-nil [] ys h = h
append-ne-nil (x ∷ xs) ys h = λ e. cc

pub print_padded-ne-nil : (n : ℕ) → print_padded n ≢ []
unfolding print_padded
print_padded-ne-nil n = append-ne-nil (zeros (10 - length (print n))) (print n) (print-ne-nil n)

digits-Lacks : (b : ℕ) (s : Bytes) → b < 48 → All IsDigit s → Lacks b s
digits-Lacks b [] k h = tt
digits-Lacks b (c ∷ s) k h = (omega arith, digits-Lacks b s k h.1)

-- A printed number has no separator in it.
pub print-Lacks : (b : ℕ) → b < 48 → (n : ℕ) → Lacks b (print n)
print-Lacks b k n = digits-Lacks b (print n) k (print-IsDigit n)

pub print_int-Lacks : (b : ℕ) → b < 45 → (z : ℤ) → Lacks b (print_int z)
unfolding print_int
print_int-Lacks b k (pos n) = print-Lacks b (omega arith) n
print_int-Lacks b k (negsuc n) = (omega arith, print-Lacks b (omega arith) (suc n))
