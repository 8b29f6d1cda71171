-- ===== src/Client/Reading.antt =====
-- A client reads what the server writes.
use twitter_clone.Prelude.{
  ℕ, ◌+◌, ◌≤◌, ◌<◌, ◌≡◌, ◌≢◌, refl, sym, ap, subst, ◌∙◌, [], ◌∷◌, ◌++◌, some, arith, length, All,
  All-append, Bytes, Lacks, codes, pos, IsInt, int_max, append-nil, append_assoc, drop, lt→ltb,
}
use twitter_clone.Text.{split_first, size_mod}
use twitter_clone.Text.Find.{Clear, split_first-Clear}
use twitter_clone.Numbers.{print, print_int, is_space, ulong_max}
use twitter_clone.Numbers.RoundTrip.{scan_int-print, scan_int-print_int, scan_unsigned-print}
use twitter_clone.Packet.{c_str, literal, blank}
use twitter_clone.Packet.Header.{
  IsVisible, blank_line, print-IsVisible, print_int-IsVisible, c_str-Lacks, Clear-line,
  Clear-newline, line-Lacks, visible-Lacks,
}
use twitter_clone.Streams.Counted.{word-visible, newline_is_space, newline_NoDigit}
use twitter_clone.Notification as Server
use twitter_clone.Client.{
  notification, deserialize, scan_sender, scan_length, sender_buffer_size, with_sender, from_parts,
}

-- A name that a client can have, and numbers that fit their types.
pub record IsReadable (n : Server.Notification) : Type 0 where
  pub id_fits : IsInt n.id
  pub timestamp_fits : n.timestamp ≤ ulong_max
  pub name_visible : All IsVisible n.username
  pub name_some : n.username ≢ []
  pub name_fits : length n.username < sender_buffer_size
  pub message_fits : length n.message ≤ int_max

c_str_text-Lacks : (s : Bytes) → Lacks 0 (c_str s)
unfolding c_str
c_str_text-Lacks [] = tt
c_str_text-Lacks (c ∷ s) = ground (arith, c_str_text-Lacks s)

module _ (n : Server.Notification) where
  abbrev pub id_line : Bytes
  id_line = codes "id:" ++ print_int n.id

  abbrev pub timestamp_line : Bytes
  timestamp_line = codes "timestamp:" ++ print n.timestamp

  abbrev pub sender_line : Bytes
  sender_line = codes "sender:" ++ n.username

  abbrev pub length_line : Bytes
  length_line = codes "length:" ++ print (length n.message)

  abbrev pub from_sender : Bytes
  from_sender = sender_line ++ b'\n' ∷ length_line

  abbrev pub from_timestamp : Bytes
  from_timestamp = timestamp_line ++ b'\n' ∷ from_sender

  abbrev pub header : Bytes
  header = id_line ++ b'\n' ∷ from_timestamp

  serialize-eq : Server.serialize n ≡ header ++ (blank_line ++ c_str n.message)
  unfolding Server.serialize
  serialize-eq =
      let tail = blank_line ++ c_str n.message in
      sym (
        append_assoc id_line (b'\n' ∷ from_timestamp) tail
        ∙ ap (λ t. id_line ++ b'\n' ∷ t)
            (append_assoc timestamp_line (b'\n' ∷ from_sender) tail
              ∙ ap (λ t. timestamp_line ++ b'\n' ∷ t)
                  (append_assoc sender_line (b'\n' ∷ length_line) tail)))

  id_line-IsVisible : All IsVisible id_line
  id_line-IsVisible =
      All-append IsVisible (codes "id:") (print_int n.id) (omega arith) (print_int-IsVisible n.id)

  timestamp_line-IsVisible : All IsVisible timestamp_line
  timestamp_line-IsVisible =
      All-append IsVisible (codes "timestamp:") (print n.timestamp) (omega arith)
        (print-IsVisible n.timestamp)

  length_line-IsVisible : All IsVisible length_line
  length_line-IsVisible =
      All-append IsVisible (codes "length:") (print (length n.message)) (omega arith)
        (print-IsVisible (length n.message))

  module _ (r : IsReadable n) where
    sender_line-IsVisible : All IsVisible sender_line
    sender_line-IsVisible =
        All-append IsVisible (codes "sender:") n.username (omega arith) r.name_visible

    header-Clear : (rest : Bytes) → Clear blank_line header rest
    header-Clear rest = Clear-line id_line (b'\n' ∷ from_timestamp) rest id_line-IsVisible (
        Clear-newline b't' (drop 1 from_timestamp) rest (omega arith) (
          Clear-line timestamp_line (b'\n' ∷ from_sender) rest timestamp_line-IsVisible (
            Clear-newline b's' (drop 1 from_sender) rest (omega arith) (
              Clear-line sender_line (b'\n' ∷ length_line) rest sender_line-IsVisible (
                Clear-newline b'l' (drop 1 length_line) rest (omega arith) (
                  subst (λ t. Clear blank_line t rest) (append-nil length_line)
                    (Clear-line length_line [] rest length_line-IsVisible tt)))))))

    header-Lacks : Lacks 0 header
    header-Lacks = line-Lacks 0 id_line from_timestamp (omega arith) id_line-IsVisible (
        line-Lacks 0 timestamp_line from_sender (omega arith) timestamp_line-IsVisible (
          line-Lacks 0 sender_line length_line (omega arith) sender_line-IsVisible
            (visible-Lacks 0 length_line (omega arith) length_line-IsVisible)))

    pub c_str-serialize_notification : c_str (Server.serialize n) ≡ Server.serialize n
    c_str-serialize_notification =
        ap c_str serialize-eq
        ∙ c_str-Lacks _ (
            All-append (λ c. c ≢ 0) header (blank_line ++ c_str n.message) header-Lacks
              (omega arith, (omega arith, c_str_text-Lacks n.message)))
        ∙ sym serialize-eq

    scan_sender-header :
        scan_sender header ≡ some (n.id, n.timestamp, n.username, b'\n' ∷ length_line)
    unfolding scan_sender literal blank is_space
    scan_sender-header = rw (scan_int-print_int n.id _ r.id_fits newline_NoDigit) (
        rw (scan_unsigned-print n.timestamp _ r.timestamp_fits newline_NoDigit) (
          rw (word-visible n.username length_line b'\n' r.name_some r.name_visible newline_is_space)
            refl))

    scan_length-header : scan_length (b'\n' ∷ length_line) ≡ some (pos (length n.message), [])
    unfolding scan_length literal blank is_space
    scan_length-header =
        rw (← append-nil (print (length n.message)))
          (scan_int-print (length n.message) [] r.message_fits tt)

  -- A client reads from the text that the server writes the id, the sender, the time and the
  -- message up to its first NUL, whatever its other bytes, if the name is visible, not empty and
  -- short enough for the buffer, the numbers fit their types, and the header is not longer than a
  -- size_t counts.
  pub deserialize-serialize_notification :
      (beautify_time : ℕ → Bytes)
      → IsReadable n
      → length header + 2 < size_mod
      → deserialize beautify_time (Server.serialize n)
        ≡ notification (record {
          id = n.id;
          sender = n.username;
          date = beautify_time n.timestamp;
          message = c_str n.message;
        })
  unfolding deserialize
  deserialize-serialize_notification beautify_time r fits =
      ap (λ t. from_parts beautify_time (split_first t blank_line)) serialize-eq
      ∙ ap (from_parts beautify_time) (
          split_first-Clear blank_line header (c_str n.message) (header-Clear r (c_str n.message))
            fits)
      ∙ ap (λ t. with_sender beautify_time (c_str n.message) (scan_sender t))
          (c_str-Lacks header (header-Lacks r))
      ∙ ap (with_sender beautify_time (c_str n.message)) (scan_sender-header r)
      ∙ rw (lt→ltb (length n.username) sender_buffer_size r.name_fits, scan_length-header r) refl
