-- ===== src/Client/Input.antt =====
-- src/client/ui/TextInput.cpp: the command box. Drawing it is left out.
use twitter_clone.Prelude.{
  ℕ, ◌-◌, ◌^◌, ◌<◌, ◌≢◌, Bool, false, ◌&&◌, List, [], ◌∷◌, ◌++◌, Option, none, some, ltb,
  if◌then◌else◌, length, init, Bytes, ℤ, pos, negsuc, int_eq,
}

-- The keys of ncurses.
abbrev pub key_f1 : ℤ
key_f1 = pos 265

abbrev pub key_backspace : ℤ
key_backspace = pos 263

-- An `int` as an unsigned long.
abbrev pub to_ulong : ℤ → ℕ
to_ulong (pos n) = n
to_ulong (negsuc n) = 2 ^ 64 - 1 - n

pub record TextInput : Type 0 where
  pub text : Bytes
  -- m_maxSize; -1 at first.
  pub max_size : ℤ

unfoldable pub set_max_size : ℤ → TextInput → TextInput
set_max_size size t = record t { max_size = size }

unfoldable pub add_char : ℕ → TextInput → TextInput
add_char c t =
    if ltb (length t.text) (to_ulong t.max_size) then record t { text = t.text ++ c ∷ [] } else t

-- pop_back; init leaves an empty text as it is, like the test in front of it.
unfoldable pub pop_back : TextInput → TextInput
pop_back t = record t { text = init t.text }

abbrev pub is_char : ℤ → Bool
is_char (pos n) = ltb 0 n && ltb n 256
is_char (negsuc n) = false

abbrev pub byte_of : ℤ → ℕ
byte_of (pos n) = n
byte_of (negsuc n) = 0

-- One key that does not end the input.
unfoldable pub press : TextInput → ℤ → TextInput
press t event =
    if is_char event
    then add_char (byte_of event) t
    else if int_eq event key_backspace
    then pop_back t
    else t

-- The loop over the keys: what it returns, or none while it still waits. The text stays where the
-- input is left with F1.
unfoldable pub input : TextInput → List ℤ → Option Bytes × TextInput
input t [] = (none, t)
input t (event ∷ events) =
    let more = input (press t event) events in
    if int_eq event key_f1
    then (some [], t)
    else if int_eq event (pos b'\n')
    then (some t.text, record t { text = [] })
    else more

abbrev pub text_or_empty : Option Bytes → Bytes
text_or_empty none = []
text_or_empty (some s) = s

-- A byte that can be typed.
abbrev pub IsTyped : ℕ → Type 0
IsTyped c = (0 < c) × (c < 256) × (c ≢ b'\n')
