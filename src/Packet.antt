-- ===== src/Packet.antt =====
-- src/lib/packet: the packets that all processes exchange, and their text form. A payload is a C
-- string: its bytes without the final NUL. Where deserialize writes the type word into typeBuffer
-- past its end, the result is none: C++ leaves what happens open.
pub mod Types
pub mod Header
pub mod RoundTrip
use twitter_clone.Prelude.{
  ℕ, suc, ◌+◌, ◌%◌, ◌^◌, Bool, true, false, not, List, [], ◌∷◌, ◌++◌, Option, none, some, ltb,
  if◌then◌else◌, length, drop, take_while, drop_while, Bytes, codes, ℤ, pos, negsuc, to_int, ◌==◌,
}
use twitter_clone.Text.{split_first, starts_with}
use twitter_clone.Numbers.{print, print_int, print_padded, is_space, scan_unsigned, scan_int}
use Types.{PacketType, no_type, type_to_string, string_to_type}

pub record Packet : Type 0 where
  pub length : ℤ
  pub type : PacketType
  pub sequence_number : ℤ
  pub timestamp : ℕ
  pub payload : Bytes

abbrev pub size_field_length : ℕ
size_field_length = 10

-- sizeof typeBuffer.
abbrev pub type_buffer_size : ℕ
type_buffer_size = 30

-- Packet(type, payload), at the time `now`.
unfoldable pub make : ℕ → PacketType → Bytes → Packet
make now type payload = record {
  length = to_int (length payload);
  type = type;
  sequence_number = negsuc 0;
  timestamp = now;
  payload = payload;
}

-- The header lines of serialize.
unfoldable pub header : Packet → Bytes
header p =
    (codes "type:" ++ type_to_string p.type)
    ++ (b'\n'
        ∷ ((codes "timestamp:" ++ print p.timestamp)
            ++ (b'\n'
                ∷ ((codes "sequenceNumber:" ++ print_int p.sequence_number)
                    ++ (b'\n' ∷ (codes "length:" ++ print_int p.length))))))

unfoldable pub body : Packet → Bytes
body p = header p ++ (codes "\n\n" ++ p.payload)

-- The size is put in front as ten digits; uint32_t totalSize wraps around.
unfoldable pub serialize : Packet → Bytes
serialize p = let text = body p in print_padded (length text % 2 ^ 32) ++ text

-- A C string ends at its first NUL.
unfoldable pub c_str : Bytes → Bytes
c_str s = take_while (λ c. not (c == 0)) s

-- The directives of the scanf format. A blank in the format skips any white space.
unfoldable pub literal : Bytes → Bytes → Option Bytes
literal [] s = some s
literal (c ∷ cs) [] = none
literal (c ∷ cs) (d ∷ s) = if c == d then literal cs s else none

unfoldable pub blank : Bytes → Bytes
blank s = drop_while is_space s

-- `%s`: the next word; `none` at the end of the input.
unfoldable pub not_space : ℕ → Bool
not_space c = not (is_space c)

abbrev word_part : Bytes → Bytes → Option (Bytes × Bytes)
word_part [] rest = none
word_part (c ∷ w) rest = some (c ∷ w, rest)

unfoldable pub word : Bytes → Option (Bytes × Bytes)
unfolding not_space blank
word s = word_part (take_while not_space (blank s)) (drop_while not_space (blank s))

infixl 5 ◌>>=◌
abbrev ◌>>=◌ {ℓ κ} : {A : Type ℓ} {B : Type κ} → Option A → (A → Option B) → Option B
none >>= f = none
some a >>= f = f a

-- The rest of the format behind the type's word; `none` if fewer than four values were read.
unfoldable pub fields : Bytes → Bytes → Bytes → Option Packet
unfolding literal blank
fields type_buffer payload s = do
  s ← literal (codes "timestamp:") (blank s)
  (timestamp, s) ← scan_unsigned s
  s ← literal (codes "sequenceNumber:") (blank s)
  (sequence_number, s) ← scan_int s
  s ← literal (codes "length:") (blank s)
  (length, s) ← scan_int s
  some (record {
    length = length;
    type = string_to_type type_buffer;
    sequence_number = sequence_number;
    timestamp = timestamp;
    payload = payload;
  })

pub data Scanned : Type 0 where
  -- The word did not fit typeBuffer.
  overflow : Scanned
  -- sscanf did not read all four values.
  too_few : Scanned
  all_read : Packet → Scanned

abbrev read_fields : Option Packet → Scanned
read_fields none = too_few
read_fields (some p) = all_read p

abbrev after_word : Bytes → Option (Bytes × Bytes) → Scanned
after_word payload none = too_few
after_word payload (some (w, s)) =
    if ltb (length w) type_buffer_size then read_fields (fields w payload s) else overflow

abbrev after_type : Bytes → Option Bytes → Scanned
after_type payload none = too_few
after_type payload (some s) = after_word payload (word s)

unfoldable pub scan : Bytes → Bytes → Scanned
scan header payload = after_type payload (literal (codes "type:") header)

unfoldable pub bad_request : ℕ → Packet
unfolding make
bad_request now = make now no_type (codes "Unable to parse. Bad request.")

abbrev or_bad_request : ℕ → Scanned → Option Packet
or_bad_request now overflow = none
or_bad_request now too_few = some (bad_request now)
or_bad_request now (all_read p) = some p

abbrev from_parts : ℕ → List Bytes → Option Packet
from_parts now (header ∷ payload ∷ []) = or_bad_request now (scan header payload)
from_parts now _ = some (bad_request now)

-- deserialize, at the time `now`.
unfoldable pub deserialize : ℕ → Bytes → Option Packet
deserialize now raw_data =
    from_parts now (split_first (drop size_field_length (c_str raw_data)) (codes "\n\n"))
