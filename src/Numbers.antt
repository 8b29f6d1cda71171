-- ===== src/Numbers.antt =====
-- The decimal conversions of the C and C++ libraries that the program uses: std::to_string and
-- `<<` on numbers, `%010u`, std::stoi, std::stoul, atoi, and the conversions of sscanf and `>>`.
-- A number that does not fit its type is none here (stoi and stoul throw; for sscanf and atoi C
-- leaves the result open).
pub mod Digits
pub mod RoundTrip
use twitter_clone.Prelude.{
  ℕ, zero, suc, ◌+◌, ◌-◌, ◌*◌, ◌/◌, ◌%◌, ◌^◌, Bool, true, false, ◌&&◌, ◌||◌, List, [], ◌∷◌, ◌++◌,
  Option, none, some, ltb, leb, ◌==◌, if◌then◌else◌, length, take_while, drop_while, Bytes, ℤ, pos,
  negsuc, int_max,
}

abbrev pub digit : ℕ → ℕ
digit d = b'0' + d

digits : ℕ → ℕ → Bytes
digits zero n = []
digits (suc fuel) n =
    let high = digits fuel (n / 10) in
    if ltb n 10 then digit n ∷ [] else high ++ digit (n % 10) ∷ []

-- Every round divides by ten, so the number bounds the rounds.
unfoldable pub print : ℕ → Bytes
unfolding digits
print n = digits (suc n) n

-- An `int`, with its sign.
unfoldable pub print_int : ℤ → Bytes
unfolding print
print_int (pos n) = print n
print_int (negsuc n) = b'-' ∷ print (suc n)

zeros : ℕ → Bytes
zeros zero = []
zeros (suc n) = b'0' ∷ zeros n

-- `%010u`: at least ten digits, filled up with zeros.
unfoldable pub print_padded : ℕ → Bytes
unfolding print zeros
print_padded n = zeros (10 - length (print n)) ++ print n

unfoldable pub is_digit : ℕ → Bool
is_digit c = leb b'0' c && leb c b'9'

-- isspace in the C locale.
unfoldable pub is_space : ℕ → Bool
is_space c = c == 32 || (leb 9 c && leb c 13)

unfoldable pub value_from : ℕ → Bytes → ℕ
value_from n [] = n
value_from n (c ∷ s) = value_from (n * 10 + (c - b'0')) s

-- The longest run of digits at the front, its value and what follows.
unfoldable pub scan_digits : Bytes → Option (ℕ × Bytes)
unfolding is_digit value_from
scan_digits s = elim (take_while is_digit s) [
  | [] ↦ none
  | d ∷ ds ↦ some (value_from 0 (d ∷ ds), drop_while is_digit s)
]

fits : ℕ → Option (ℕ × Bytes) → Option (ℕ × Bytes)
fits bound none = none
fits bound (some (n, rest)) = if leb n bound then some (n, rest) else none

-- `n` negated in the width of `unsigned long`.
negated_unsigned : Option (ℕ × Bytes) → Option (ℕ × Bytes)
negated_unsigned none = none
negated_unsigned (some (n, rest)) = some ((2 ^ 64 - n) % 2 ^ 64, rest)

abbrev pub ulong_max : ℕ
ulong_max = 2 ^ 64 - 1

unsigned : Bytes → Option (ℕ × Bytes)
unfolding scan_digits fits negated_unsigned
unsigned [] = none
unsigned (c ∷ s) =
    if c == b'-'
    then negated_unsigned (fits ulong_max (scan_digits s))
    else if c == b'+'
    then fits ulong_max (scan_digits s)
    else fits ulong_max (scan_digits (c ∷ s))

-- `%lu` of sscanf, `>>` into an unsigned long, and the number that stoul reads.
unfoldable pub scan_unsigned : Bytes → Option (ℕ × Bytes)
unfolding is_space unsigned
scan_unsigned s = unsigned (drop_while is_space s)

negated : Option (ℕ × Bytes) → Option (ℤ × Bytes)
negated none = none
negated (some (zero, rest)) = some (pos 0, rest)
negated (some (suc n, rest)) = some (negsuc n, rest)

plain : Option (ℕ × Bytes) → Option (ℤ × Bytes)
plain none = none
plain (some (n, rest)) = some (pos n, rest)

signed : Bytes → Option (ℤ × Bytes)
unfolding scan_digits fits negated plain
signed [] = none
signed (c ∷ s) =
    if c == b'-'
    then negated (fits (int_max + 1) (scan_digits s))
    else if c == b'+'
    then plain (fits int_max (scan_digits s))
    else plain (fits int_max (scan_digits (c ∷ s)))

-- `%d` of sscanf, `>>` into an int, and the number that stoi and atoi read.
unfoldable pub scan_int : Bytes → Option (ℤ × Bytes)
unfolding is_space signed
scan_int s = signed (drop_while is_space s)

abbrev value_of : Option (ℤ × Bytes) → Option ℤ
value_of none = none
value_of (some (n, rest)) = some n

-- std::stoi: throws (none) where there is no number.
unfoldable pub stoi : Bytes → Option ℤ
unfolding scan_int
stoi s = value_of (scan_int s)

abbrev or_zero : Option (ℤ × Bytes) → ℤ
or_zero none = pos 0
or_zero (some (n, rest)) = n

-- atoi: 0 where there is no number.
unfoldable pub atoi : Bytes → ℤ
unfolding scan_int
atoi s = or_zero (scan_int s)

abbrev value_of_unsigned : Option (ℕ × Bytes) → Option ℕ
value_of_unsigned none = none
value_of_unsigned (some (n, rest)) = some n

-- std::stoul.
unfoldable pub stoul : Bytes → Option ℕ
unfolding scan_unsigned
stoul s = value_of_unsigned (scan_unsigned s)
