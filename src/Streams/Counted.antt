-- ===== src/Streams/Counted.antt =====
-- Words, numbers and counted texts are read as they were written, whatever follows them.
use twitter_clone.Prelude.{
  ℕ, ◌≤◌, ◌≡◌, ◌≢◌, refl, sym, ap, ◌∙◌, true, false, [], ◌∷◌, ◌++◌, some, arith, leb, length,
  length-append, append-nil, take_prefix, drop_prefix, All, Bytes, Lacks, codes, pos, int_max,
  take_while-append, drop_while-append,
}
use twitter_clone.Numbers.{print, is_digit, is_space, scan_int, scan_unsigned}
use twitter_clone.Numbers.RoundTrip.{scan_int-print}
use twitter_clone.Packet.{blank, word, not_space}
use twitter_clone.Packet.Header.{IsVisible, Passes-visible, c_str-Lacks}
use twitter_clone.Streams.{read_chars, read_counted}

blank-visible : (c : ℕ) (s : Bytes) → IsVisible c → blank (c ∷ s) ≡ c ∷ s
unfolding blank is_space
blank-visible c s v = ground arith

-- A visible word is read up to the next white space.
pub word-visible :
    (w rest : Bytes) (c : ℕ)
    → w ≢ []
    → All IsVisible w
    → is_space c ≡ true
    → word (w ++ c ∷ rest) ≡ some (w, c ∷ rest)
unfolding word
word-visible [] rest d h v e = absurd (h refl)
word-visible (c ∷ w) rest d h v e =
    let line = d ∷ rest in
    let stops : not_space d ≡ false = unfold not_space in ground arith in
    rw
      (
        blank-visible c (w ++ line) v.0,
        take_while-append not_space (c ∷ w) line (Passes-visible (c ∷ w) v) stops,
        drop_while-append not_space (c ∷ w) line (Passes-visible (c ∷ w) v) stops,
      )
      refl

pub blank_is_space : is_space b' ' ≡ true
unfolding is_space
blank_is_space = refl

pub newline_is_space : is_space b'\n' ≡ true
unfolding is_space
newline_is_space = refl

pub blank_NoDigit : is_digit b' ' ≡ false
unfolding is_digit
blank_NoDigit = refl

pub newline_NoDigit : is_digit b'\n' ≡ false
unfolding is_digit
newline_NoDigit = refl

-- White space in front of a number is skipped.
pub scan_int-blank : (s : Bytes) → scan_int (b' ' ∷ s) ≡ scan_int s
unfolding scan_int is_space
scan_int-blank s = refl

pub scan_unsigned-blank : (s : Bytes) → scan_unsigned (b' ' ∷ s) ≡ scan_unsigned s
unfolding scan_unsigned is_space
scan_unsigned-blank s = refl

pub word-blank : (s : Bytes) → word (b' ' ∷ s) ≡ word s
unfolding word blank is_space
word-blank s = refl

read_chars-append :
    (t rest : Bytes) → Lacks 0 t → read_chars true (pos (length t)) (t ++ rest) ≡ some (t, rest)
unfolding read_chars
read_chars-append t rest h =
    let enough : leb (length t) (length (t ++ rest)) ≡ true =
      ground (arith, length-append t rest) in
    rw (enough, take_prefix t rest, drop_prefix t rest, c_str-Lacks t h) refl

-- A text that is written behind its length is read whole.
pub read_counted-print :
    (t rest : Bytes)
    → Lacks 0 t
    → length t ≤ int_max
    → read_counted true (print (length t) ++ (codes " " ++ (t ++ rest))) ≡ some (t, rest)
unfolding read_counted
read_counted-print t rest h fits =
    rw (scan_int-print (length t) (codes " " ++ (t ++ rest)) fits blank_NoDigit)
      (read_chars-append t rest h)

pub read_counted-blank : (s : Bytes) → read_counted true (b' ' ∷ s) ≡ read_counted true s
unfolding read_counted
read_counted-blank s = rw (scan_int-blank s) refl

pub read_counted-print_end :
    (t : Bytes)
    → Lacks 0 t
    → length t ≤ int_max
    → read_counted true (print (length t) ++ (codes " " ++ t)) ≡ some (t, [])
read_counted-print_end t h fits =
    ap (λ z. read_counted true (print (length t) ++ (codes " " ++ z))) (sym (append-nil t))
    ∙ read_counted-print t [] h fits
