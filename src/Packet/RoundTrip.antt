-- ===== src/Packet/RoundTrip.antt =====
-- A packet that is sent is received: deserialize undoes serialize.
use twitter_clone.Prelude.{
  ℕ, ◌≤◌, ◌<◌, ◌%◌, ◌^◌, ◌≡◌, refl, sym, true, false, [], ◌∷◌, ◌++◌, some, arith, ltb, Bytes, codes,
  Lacks, IsInt, length, length-append, drop, drop_prefix, append-nil,
}
use twitter_clone.Text.{split_first}
use twitter_clone.Text.Find.{split_first-Clear}
use twitter_clone.Numbers.{print, print_int, print_padded, is_space, is_digit, ulong_max}
use twitter_clone.Numbers.Digits.{length-print_padded}
use twitter_clone.Numbers.RoundTrip.{scan_unsigned-print, scan_int-print_int}
use twitter_clone.Packet.Types.{PacketType, ack, type_to_string, string_to_type-type_to_string}
use twitter_clone.Packet.{
  Packet, header, body, serialize, deserialize, word, literal, blank, fields, scan, all_read,
  type_buffer_size, size_field_length,
}
use twitter_clone.Packet.Header.{blank_line, header-Clear, c_str-serialize}

-- What a packet's numbers can be, and a size that uint32_t holds.
pub record IsSendable (p : Packet) : Type 0 where
  pub timestamp_fits : p.timestamp ≤ ulong_max
  pub sequence_fits : IsInt p.sequence_number
  pub length_fits : IsInt p.length
  pub size_fits : length (body p) < 2 ^ 32
  pub no_nul : Lacks 0 p.payload

-- The size field and the body are cut apart again.
drop-serialize :
    (p : Packet) → length (body p) < 2 ^ 32 → drop size_field_length (serialize p) ≡ body p
unfolding serialize
drop-serialize p h =
    let size = print_padded (length (body p) % 2 ^ 32) in
    rw (sym (length-print_padded (length (body p) % 2 ^ 32) (omega arith)))
      (drop_prefix size (body p))

split-body :
    (p : Packet)
    → length (body p) < 2 ^ 32
    → split_first (body p) blank_line ≡ header p ∷ p.payload ∷ []
unfolding body
split-body p h =
    split_first-Clear blank_line (header p) p.payload (header-Clear p p.payload)
      (omega (arith, length-append (header p) (blank_line ++ p.payload)))

word-type :
    (t : PacketType) (rest : Bytes)
    → word (type_to_string t ++ b'\n' ∷ rest) ≡ some (type_to_string t, b'\n' ∷ rest)
unfolding word is_space type_to_string
word-type ack rest = refl
word-type _ rest = refl

length-type_to_string : (t : PacketType) → ltb (length (type_to_string t)) type_buffer_size ≡ true
unfolding type_to_string
length-type_to_string ack = refl
length-type_to_string _ = refl

-- The header behind the type's word.
abbrev behind_type : Packet → Bytes
behind_type p =
    b'\n'
    ∷ ((codes "timestamp:" ++ print p.timestamp)
        ++ (b'\n'
            ∷ ((codes "sequenceNumber:" ++ print_int p.sequence_number)
                ++ (b'\n' ∷ (codes "length:" ++ print_int p.length)))))

newline_NoDigit : is_digit b'\n' ≡ false
unfolding is_digit
newline_NoDigit = refl

fields-header :
    (p : Packet) → IsSendable p → fields (type_to_string p.type) p.payload (behind_type p) ≡ some p
unfolding fields literal blank is_space
fields-header p v = rw (scan_unsigned-print p.timestamp _ v.timestamp_fits newline_NoDigit) (
    rw (scan_int-print_int p.sequence_number _ v.sequence_fits newline_NoDigit) (
      rw (← append-nil (print_int p.length)) (
        rw
          (scan_int-print_int p.length [] v.length_fits tt, string_to_type-type_to_string p.type))))

scan-header : (p : Packet) → IsSendable p → scan (header p) p.payload ≡ all_read p
unfolding scan header literal
scan-header p v =
    rw (word-type p.type (drop 1 (behind_type p)), length-type_to_string p.type)
      (rw (fields-header p v))

-- A packet whose numbers fit their types and whose payload has no NUL is received as it was
-- sent: every field, and a payload of any other bytes, blank lines included.
pub deserialize-serialize :
    (now : ℕ) (p : Packet) → IsSendable p → deserialize now (serialize p) ≡ some p
unfolding deserialize
deserialize-serialize now p v = cc (
  c_str-serialize p v.no_nul,
  drop-serialize p v.size_fits,
  split-body p v.size_fits,
  scan-header p v,
)
