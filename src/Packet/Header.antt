-- ===== src/Packet/Header.antt =====
-- The header lines are made of visible bytes, so the first blank line is the one behind them.
use twitter_clone.Prelude.{
  ℕ, suc, ◌≤◌, ◌<◌, ◌≡◌, ◌≢◌, refl, subst, [], ◌∷◌, ◌++◌, arith, All, All-append, Passes, Bytes,
  codes, Lacks, ℤ, pos, negsuc, length, drop, ◌%◌, ◌^◌, append-nil,
}
use twitter_clone.Text.{starts_with}
use twitter_clone.Text.Find.{Clear}
use twitter_clone.Numbers.{print, print_int, print_padded, is_space}
use twitter_clone.Numbers.Digits.{IsDigit, print-IsDigit, print_padded-IsDigit}
use twitter_clone.Packet.Types.{PacketType, ack, type_to_string}
use twitter_clone.Packet.{Packet, header, body, c_str, not_space, serialize}

-- A byte that is neither a blank, nor a newline, nor NUL.
abbrev pub IsVisible : ℕ → Type 0
IsVisible c = (33 ≤ c) × (c ≤ 126)

pub digits-IsVisible : (s : Bytes) → All IsDigit s → All IsVisible s
digits-IsVisible [] h = tt
digits-IsVisible (c ∷ s) h = (omega arith, digits-IsVisible s h.1)

pub print-IsVisible : (n : ℕ) → All IsVisible (print n)
print-IsVisible n = digits-IsVisible (print n) (print-IsDigit n)

pub print_int-IsVisible : (z : ℤ) → All IsVisible (print_int z)
unfolding print_int
print_int-IsVisible (pos n) = print-IsVisible n
print_int-IsVisible (negsuc n) = (omega arith, print-IsVisible (suc n))

type_to_string-IsVisible : (t : PacketType) → All IsVisible (type_to_string t)
unfolding type_to_string
type_to_string-IsVisible ack = omega arith
type_to_string-IsVisible _ = omega arith

pub Passes-visible : (s : Bytes) → All IsVisible s → Passes not_space s
unfolding not_space is_space
Passes-visible [] h = tt
Passes-visible (c ∷ s) h = (ground arith, Passes-visible s h.1)

pub visible-Lacks : (b : ℕ) (s : Bytes) → b < 33 → All IsVisible s → Lacks b s
visible-Lacks b [] k h = tt
visible-Lacks b (c ∷ s) k h = (omega arith, visible-Lacks b s k h.1)

abbrev pub blank_line : Bytes
blank_line = codes "\n\n"

pub Clear-line :
    (l t rest : Bytes) → All IsVisible l → Clear blank_line t rest → Clear blank_line (l ++ t) rest
unfolding starts_with
Clear-line [] t rest h k = k
Clear-line (c ∷ l) t rest h k = (ground arith, Clear-line l t rest h.1 k)

pub Clear-newline :
    (c : ℕ) (t rest : Bytes)
    → c ≢ b'\n'
    → Clear blank_line (c ∷ t) rest
    → Clear blank_line (b'\n' ∷ c ∷ t) rest
unfolding starts_with
Clear-newline c t rest h k = (ground arith, k)

pub line-Lacks :
    (b : ℕ) (l t : Bytes) → b < 10 → All IsVisible l → Lacks b t → Lacks b (l ++ b'\n' ∷ t)
line-Lacks b l t h k r =
    All-append (λ c. c ≢ b) l (b'\n' ∷ t) (visible-Lacks b l (omega arith) k) (omega arith, r)

module _ (p : Packet) where
  abbrev type_line : Bytes
  type_line = codes "type:" ++ type_to_string p.type

  abbrev timestamp_line : Bytes
  timestamp_line = codes "timestamp:" ++ print p.timestamp

  abbrev sequence_line : Bytes
  sequence_line = codes "sequenceNumber:" ++ print_int p.sequence_number

  abbrev length_line : Bytes
  length_line = codes "length:" ++ print_int p.length

  -- The header from the third and from the second line on.
  abbrev from_third : Bytes
  from_third = sequence_line ++ b'\n' ∷ length_line

  abbrev from_second : Bytes
  from_second = timestamp_line ++ b'\n' ∷ from_third

  type_line-IsVisible : All IsVisible type_line
  type_line-IsVisible =
      All-append IsVisible (codes "type:") (type_to_string p.type) (omega arith)
        (type_to_string-IsVisible p.type)

  timestamp_line-IsVisible : All IsVisible timestamp_line
  timestamp_line-IsVisible =
      All-append IsVisible (codes "timestamp:") (print p.timestamp) (omega arith)
        (print-IsVisible p.timestamp)

  sequence_line-IsVisible : All IsVisible sequence_line
  sequence_line-IsVisible =
      All-append IsVisible (codes "sequenceNumber:") (print_int p.sequence_number) (omega arith)
        (print_int-IsVisible p.sequence_number)

  length_line-IsVisible : All IsVisible length_line
  length_line-IsVisible =
      All-append IsVisible (codes "length:") (print_int p.length) (omega arith)
        (print_int-IsVisible p.length)

  length_line-Clear : (rest : Bytes) → Clear blank_line length_line rest
  length_line-Clear rest =
      subst (λ t. Clear blank_line t rest) (append-nil length_line)
        (Clear-line length_line [] rest length_line-IsVisible tt)

  -- No blank line stands inside the header.
  pub header-Clear : (rest : Bytes) → Clear blank_line (header p) rest
  unfolding header
  header-Clear rest = Clear-line type_line (b'\n' ∷ from_second) rest type_line-IsVisible (
      Clear-newline b't' (drop 1 from_second) rest (omega arith) (
        Clear-line timestamp_line (b'\n' ∷ from_third) rest timestamp_line-IsVisible (
          Clear-newline b's' (drop 1 from_third) rest (omega arith) (
            Clear-line sequence_line (b'\n' ∷ length_line) rest sequence_line-IsVisible (
              Clear-newline b'l' (drop 1 length_line) rest (omega arith)
                (length_line-Clear rest))))))

  -- Nor does a NUL.
  pub header-Lacks : Lacks 0 (header p)
  unfolding header
  header-Lacks = line-Lacks 0 type_line from_second (omega arith) type_line-IsVisible (
      line-Lacks 0 timestamp_line from_third (omega arith) timestamp_line-IsVisible (
        line-Lacks 0 sequence_line length_line (omega arith) sequence_line-IsVisible
          (visible-Lacks 0 length_line (omega arith) length_line-IsVisible)))

  pub body-Lacks : Lacks 0 p.payload → Lacks 0 (body p)
  unfolding body
  body-Lacks h =
      All-append (λ c. c ≢ 0) (header p) (blank_line ++ p.payload) header-Lacks
        (omega arith, (omega arith, h))

pub c_str-Lacks : (s : Bytes) → Lacks 0 s → c_str s ≡ s
unfolding c_str
c_str-Lacks [] h = refl
c_str-Lacks (c ∷ s) h = ground (arith, c_str-Lacks s h.1)

-- A payload without NUL is sent whole.
pub c_str-serialize : (p : Packet) → Lacks 0 p.payload → c_str (serialize p) ≡ serialize p
unfolding serialize
c_str-serialize p h =
    let size = print_padded (length (body p) % 2 ^ 32) in
    c_str-Lacks (serialize p) (
      All-append (λ c. c ≢ 0) size (body p)
        (visible-Lacks 0 size (omega arith)
          (digits-IsVisible size (print_padded-IsDigit (length (body p) % 2 ^ 32))))
        (body-Lacks p h))
