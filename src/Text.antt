-- ===== src/Text.antt =====
-- src/lib/utils/string.cpp: prefixes, splitting and joining of std::string. The date format of
-- beautifyTime is the C library's and is a parameter where it is used.
pub mod Find
pub mod Split
pub mod Lines
pub mod Pieces
pub mod Rows
use twitter_clone.Prelude.{
  ℕ, suc, ◌+◌, ◌-◌, ◌^◌, ◌%◌, Bool, true, false, not, ◌&&◌, List, [], ◌∷◌, ◌++◌, Option, none, some,
  ltb, ◌==◌, if◌then◌else◌, length, take, drop, init, Bytes,
}

-- The prefix test behind `rfind(prefix, 0) == 0`.
unfoldable pub starts_with : Bytes → Bytes → Bool
starts_with [] s = true
starts_with (d ∷ ds) [] = false
starts_with (d ∷ ds) (c ∷ s) = c == d && starts_with ds s

unfoldable pub has_prefix : Bytes → Bytes → Bool
unfolding starts_with
has_prefix origin prefix = starts_with prefix origin

unfoldable pub remove_prefix : Bytes → Bytes → Bytes
unfolding starts_with
remove_prefix origin prefix =
    if starts_with prefix origin then drop (length prefix) origin else origin

-- `std::remove` of every newline.
without_newlines : Bytes → Bytes
without_newlines [] = []
without_newlines (c ∷ s) = let rest = without_newlines s in if c == b'\n' then rest else c ∷ rest

pub ends_in_newline : Bytes → Bool
ends_in_newline [] = false
ends_in_newline (c ∷ []) = c == b'\n'
ends_in_newline (c ∷ d ∷ s) = ends_in_newline (d ∷ s)

pub remove_new_line : Bytes → Bool → Bytes
unfolding without_newlines ends_in_newline
remove_new_line origin true = without_newlines origin
remove_new_line origin false = if ends_in_newline origin then init origin else origin

-- `std::string::npos`, and the width of size_t.
abbrev pub size_mod : ℕ
size_mod = 2 ^ 64

abbrev pub npos : ℕ
npos = size_mod - 1

abbrev up : Option ℕ → Option ℕ
up none = none
up (some i) = some (suc i)

-- `std::string::find`: the first position at which the delimiter stands.
unfoldable pub find : Bytes → Bytes → Option ℕ
unfolding starts_with
find d [] = if starts_with d [] then some 0 else none
find d (c ∷ s) = let later = up (find d s) in if starts_with d (c ∷ s) then some 0 else later

abbrev position : Option ℕ → ℕ
position none = npos
position (some i) = i

-- The two parts as the code computes them, also where the delimiter is missing: `npos` plus the
-- delimiter's length wraps around.
unfoldable pub split_first : Bytes → Bytes → List Bytes
unfolding find
split_first str delimiter =
    let pos = position (find delimiter str) in
    take pos str ∷ drop ((pos + length delimiter) % size_mod) str ∷ []

-- The loop of `split`; `none` means that the fuel ran out.
split_loop : ℕ → Bytes → List Bytes → Bytes → Option (List Bytes)
unfolding find
split_loop ℕ.zero d parts s = none
split_loop (suc fuel) d parts s = elim (find d s) [
  | none ↦ some (parts ++ s ∷ [])
  | some pos ↦ split_loop fuel d (parts ++ take pos s ∷ []) (drop (pos + length d) s)
]

-- Each round erases the delimiter, so the length of the text bounds the rounds.
unfoldable pub split : Bytes → Bytes → Option (List Bytes)
unfolding split_loop
split str delimiter = split_loop (suc (length str)) delimiter [] str

split_by_length_loop : ℕ → ℕ → Bytes → List Bytes → Option (List Bytes)
split_by_length_loop ℕ.zero n buff strings = none
split_by_length_loop (suc fuel) n buff strings = elim (ltb n (length buff)) [
  | true ↦ split_by_length_loop fuel n (drop n buff) (strings ++ take n (drop n buff) ∷ [])
  | false ↦ some strings
]

unfoldable pub split_by_length : ℕ → Bytes → Option (List Bytes)
unfolding split_by_length_loop
split_by_length n s = split_by_length_loop (suc (length s)) n s (take n s ∷ [])

unfoldable pub join_loop : Bytes → List Bytes → Bytes → Bytes
join_loop delimiter [] string = string
join_loop delimiter (v ∷ vs) string = join_loop delimiter vs (string ++ (delimiter ++ v))

unfoldable pub join_string_vector : List Bytes → Bytes → Bytes
unfolding join_loop
join_string_vector [] delimiter = []
join_string_vector (v ∷ vs) delimiter = join_loop delimiter vs v

-- The loop with the flag `first`.
pub join_list_loop : Bytes → List Bytes → Bool → Bytes → Bytes
join_list_loop delimiter [] first string = string
join_list_loop delimiter (s ∷ ss) first string =
    join_list_loop delimiter ss false (if first then string ++ s else string ++ (delimiter ++ s))

unfoldable pub join_string_list : List Bytes → Bytes → Bytes
unfolding join_list_loop
join_string_list [] delimiter = []
join_string_list (s ∷ ss) delimiter = join_list_loop delimiter (s ∷ ss) true []
