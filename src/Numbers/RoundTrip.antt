-- ===== src/Numbers/RoundTrip.antt =====
-- What is printed is read back, whatever follows it.
use twitter_clone.Prelude.{
  ℕ, suc, ◌≤◌, ◌≡◌, ◌≢◌, refl, false, [], ◌∷◌, ◌++◌, some, arith, ◌==◌, Stops, take_while-append,
  drop_while-append, Bytes, All, ℤ, pos, negsuc, int_max, IsInt, append-nil,
}
use twitter_clone.Numbers.{
  print, print_int, print_padded, is_digit, is_space, value_from, scan_digits, fits, scan_unsigned,
  negated, plain, scan_int, stoi, stoul, atoi, ulong_max,
}
use twitter_clone.Numbers.Digits.{
  IsDigit, value_from-print, print-IsDigit, print-ne-nil, print_padded-ne-nil, Passes-digits,
  print_padded-IsDigit, value_from-print_padded,
}

-- The text that follows a number does not begin with a digit.
abbrev pub NoDigit : Bytes → Type 0
NoDigit = Stops is_digit

scan_digits-append :
    (s rest : Bytes)
    → s ≢ []
    → All IsDigit s
    → NoDigit rest
    → scan_digits (s ++ rest) ≡ some (value_from 0 s, rest)
unfolding scan_digits
scan_digits-append [] rest ne k h = absurd (ne refl)
scan_digits-append (c ∷ s) rest ne k h = ground (
  arith,
  take_while-append is_digit (c ∷ s) rest (Passes-digits (c ∷ s) k) h,
  drop_while-append is_digit (c ∷ s) rest (Passes-digits (c ∷ s) k) h,
)

-- The first byte is a digit, so no blank is skipped and no sign is read.
digit_front :
    (c : ℕ) → IsDigit c → (is_space c ≡ false) × ((c == b'-') ≡ false) × ((c == b'+') ≡ false)
unfolding is_space
digit_front c h = ground arith

unsigned_digits :
    (s rest : Bytes)
    → s ≢ []
    → All IsDigit s
    → scan_unsigned (s ++ rest) ≡ fits ulong_max (scan_digits (s ++ rest))
unfolding scan_unsigned
unsigned_digits [] rest ne k = absurd (ne refl)
unsigned_digits (c ∷ s) rest ne k = ground (arith, digit_front c k.0)

signed_digits :
    (s rest : Bytes)
    → s ≢ []
    → All IsDigit s
    → scan_int (s ++ rest) ≡ plain (fits int_max (scan_digits (s ++ rest)))
unfolding scan_int
signed_digits [] rest ne k = absurd (ne refl)
signed_digits (c ∷ s) rest ne k = ground (arith, digit_front c k.0)

pub scan_unsigned-print :
    (n : ℕ) (rest : Bytes)
    → n ≤ ulong_max
    → NoDigit rest
    → scan_unsigned (print n ++ rest) ≡ some (n, rest)
unfolding fits
scan_unsigned-print n rest h k = ground (
  arith,
  unsigned_digits (print n) rest (print-ne-nil n) (print-IsDigit n),
  scan_digits-append (print n) rest (print-ne-nil n) (print-IsDigit n) k,
  value_from-print n,
)

pub scan_int-print :
    (n : ℕ) (rest : Bytes)
    → n ≤ int_max
    → NoDigit rest
    → scan_int (print n ++ rest) ≡ some (pos n, rest)
unfolding fits plain
scan_int-print n rest h k = ground (
  arith,
  signed_digits (print n) rest (print-ne-nil n) (print-IsDigit n),
  scan_digits-append (print n) rest (print-ne-nil n) (print-IsDigit n) k,
  value_from-print n,
)

scan_int-minus :
    (n : ℕ) (rest : Bytes)
    → n ≤ int_max
    → NoDigit rest
    → scan_int (b'-' ∷ (print (suc n) ++ rest)) ≡ some (negsuc n, rest)
unfolding scan_int fits negated
scan_int-minus n rest h k = ground (
  arith,
  scan_digits-append (print (suc n)) rest (print-ne-nil (suc n)) (print-IsDigit (suc n)) k,
  value_from-print (suc n),
)

-- An `int` that is printed is read back, with its sign, whatever follows it but a digit.
pub scan_int-print_int :
    (z : ℤ) (rest : Bytes)
    → IsInt z
    → NoDigit rest
    → scan_int (print_int z ++ rest) ≡ some (z, rest)
unfolding print_int
scan_int-print_int (pos n) rest h k = scan_int-print n rest h k
scan_int-print_int (negsuc n) rest h k = scan_int-minus n rest h k

pub stoi-print_int : (z : ℤ) → IsInt z → stoi (print_int z) ≡ some z
unfolding stoi
stoi-print_int z h = ground (arith, scan_int-print_int z [] h tt, append-nil (print_int z))

pub stoi-print : (n : ℕ) → n ≤ int_max → stoi (print n) ≡ some (pos n)
stoi-print n h = unfold print_int in stoi-print_int (pos n) h

pub atoi-print_int : (z : ℤ) → IsInt z → atoi (print_int z) ≡ z
unfolding atoi
atoi-print_int z h = ground (arith, scan_int-print_int z [] h tt, append-nil (print_int z))

-- The size field of a packet is read back.
pub stoul-print_padded : (n : ℕ) → n ≤ ulong_max → stoul (print_padded n) ≡ some n
unfolding stoul fits
stoul-print_padded n h = ground (
  arith,
  append-nil (print_padded n),
  unsigned_digits (print_padded n) [] (print_padded-ne-nil n) (print_padded-IsDigit n),
  scan_digits-append (print_padded n) [] (print_padded-ne-nil n) (print_padded-IsDigit n) tt,
  value_from-print_padded n,
)
