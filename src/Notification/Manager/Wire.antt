-- ===== src/Notification/Manager/Wire.antt =====
-- What a replica reads from the text form of the leader's notification manager.
use twitter_clone.Prelude.{
  ℕ, ◌≤◌, ◌<◌, ◌≡◌, ◌≢◌, refl, sym, ap, ◌∙◌, true, false, List, [], ◌∷◌, ◌++◌, map, some, arith,
  length, drop, All, All-append, Bytes, Lacks, codes, int_max, append-nil, append_assoc,
}
use twitter_clone.Prelude.Map.{Map}
use twitter_clone.Numbers.{print}
use twitter_clone.Numbers.Digits.{print-Lacks}
use twitter_clone.Numbers.RoundTrip.{scan_int-print}
use twitter_clone.Packet.Header.{visible-Lacks, c_str-Lacks}
use twitter_clone.Streams.Counted.{
  word-visible, scan_int-blank, read_counted-print, read_counted-print_end, read_counted-blank,
  blank_is_space, blank_NoDigit,
}
use twitter_clone.Notification.{Notification, serialize_all}
use twitter_clone.Notification.Queues.{NotificationQueue}
use twitter_clone.Notification.Queues
use twitter_clone.Notification.Wire.{
  IsName, IsLine, IsEntry, deserialize_all-serialize_all, serialize_all-Lacks,
  deserialize-serialize_queue, serialize_queue-Lacks,
}
use twitter_clone.Notification.Manager.Texts.{
  serialize_notifications, serialize_senders, serialize_queues, read_notifications, read_sender,
  read_queue,
}
use twitter_clone.Text.Rows.{lines_text}

-- A sender's notifications, each behind its length, with commas between them.
abbrev pub entry : Notification → Bytes → Bytes
entry n rest = let text = serialize_all n in print (length text) ++ (codes " " ++ (text ++ rest))

abbrev pub later_notes : List Notification → Bytes
later_notes [] = []
later_notes (n ∷ ns) = b',' ∷ entry n (later_notes ns)

abbrev pub notes : List Notification → Bytes
notes [] = []
notes (n ∷ ns) = entry n (later_notes ns)

serialize_notifications-later :
    (ns : List Notification) (s : Bytes) → serialize_notifications ns false s ≡ s ++ later_notes ns
unfolding serialize_notifications
serialize_notifications-later [] s = sym (append-nil s)
serialize_notifications-later (n ∷ ns) s =
    let text = serialize_all n in
    serialize_notifications-later ns _
    ∙ append_assoc s _ (later_notes ns)
    ∙ ap (λ t. s ++ b',' ∷ t) (append_assoc (print (length text)) _ (later_notes ns))

serialize_notifications-eq :
    (ns : List Notification) (s : Bytes) → serialize_notifications ns true s ≡ s ++ notes ns
unfolding serialize_notifications
serialize_notifications-eq [] s = sym (append-nil s)
serialize_notifications-eq (n ∷ ns) s =
    let text = serialize_all n in
    serialize_notifications-later ns _
    ∙ append_assoc s _ (later_notes ns)
    ∙ ap (λ t. s ++ t) (append_assoc (print (length text)) _ (later_notes ns))

drop-later : (ns : List Notification) → drop 1 (later_notes ns) ≡ notes ns
drop-later [] = refl
drop-later (n ∷ ns) = refl

read_notifications-notes :
    (ns : List Notification)
    → All IsLine ns
    → read_notifications true (length ns) (notes ns) ≡ some ns
unfolding read_notifications
read_notifications-notes [] h = refl
read_notifications-notes (n ∷ ns) h =
    rw
      (
        read_counted-print (serialize_all n) (later_notes ns)
            (serialize_all-Lacks 0 (omega arith) n h.0 h.0.message_whole) h.0.text_fits,
        deserialize_all-serialize_all n h.0,
        drop-later ns,
        read_notifications-notes ns h.1,
      )
      refl

read_notifications-blank :
    (ns : List Notification)
    → All IsLine ns
    → read_notifications true (length ns) (b' ' ∷ notes ns) ≡ some ns
read_notifications-blank [] h = unfold read_notifications in refl
read_notifications-blank (n ∷ ns) h =
    unfold read_notifications in
    rw (read_counted-blank (notes (n ∷ ns))) (read_notifications-notes (n ∷ ns) h)

abbrev pub sender_line : Bytes × List Notification → Bytes
sender_line (name, ns) = name ++ (codes " " ++ (print (length ns) ++ (codes " " ++ notes ns)))

abbrev pub queue_line : Bytes × NotificationQueue → Bytes
queue_line (name, q) =
    let text = Queues.serialize q in
    name ++ (codes " " ++ (print (length text) ++ (codes " " ++ text)))

pub serialize_senders-eq :
    (m : Map (List Notification)) (s : Bytes)
    → serialize_senders m s ≡ s ++ lines_text (map sender_line m)
unfolding serialize_senders
serialize_senders-eq [] s = sym (append-nil s)
serialize_senders-eq ((name, ns) ∷ m) s =
    serialize_senders-eq m _
    ∙ ap (λ t. (t ++ codes "\n") ++ lines_text (map sender_line m))
        (serialize_notifications-eq ns
          (s ++ (name ++ (codes " " ++ (print (length ns) ++ codes " ")))))
    ∙ simp append_assoc

pub serialize_queues-eq :
    (m : Map NotificationQueue) (s : Bytes)
    → serialize_queues m s ≡ s ++ lines_text (map queue_line m)
unfolding serialize_queues
serialize_queues-eq [] s = sym (append-nil s)
serialize_queues-eq ((name, q) ∷ m) s = serialize_queues-eq m _ ∙ simp append_assoc

-- A sender with her notifications, and a user with her queue, as they can be written.
pub record IsSender (e : Bytes × List Notification) : Type 0 where
  pub name : IsName e.0
  pub lines : All IsLine e.1
  pub lines_fit : length e.1 ≤ int_max

pub record IsUser (e : Bytes × NotificationQueue) : Type 0 where
  pub name : IsName e.0
  pub entries : All IsEntry e.1.pending
  pub entries_fit : length e.1.pending ≤ int_max
  pub text_fits : length (Queues.serialize e.1) ≤ int_max

pub read_sender-line :
    (e : Bytes × List Notification) → IsSender e → read_sender true (sender_line e) ≡ some e
unfolding read_sender
read_sender-line (name, ns) v =
    rw (word-visible name _ b' ' v.name.some_byte v.name.visible blank_is_space) (
      rw (scan_int-blank _, scan_int-print (length ns) (b' ' ∷ notes ns) v.lines_fit blank_NoDigit)
        (rw (read_notifications-blank ns v.lines) refl))

-- The queue without its subscribers.
abbrev pub unsubscribed : Bytes × NotificationQueue → Bytes × NotificationQueue
unsubscribed (name, q) = (name, record q { subscribers = [] })

pub read_queue-line :
    (e : Bytes × NotificationQueue)
    → IsUser e
    → read_queue true (queue_line e) ≡ some (unsubscribed e)
unfolding read_queue
read_queue-line (name, q) v =
    let text = Queues.serialize q in
    let whole : Lacks 0 text = serialize_queue-Lacks 0 (omega arith) q v.entries in
    rw (word-visible name _ b' ' v.name.some_byte v.name.visible blank_is_space) (
      rw (read_counted-blank _, read_counted-print_end text whole v.text_fits)
        (rw (c_str-Lacks text whole, deserialize-serialize_queue q v.entries v.entries_fit) refl))

-- The texts have no newline and no NUL.
entry-Lacks :
    (b : ℕ)
    → b < 32
    → (n : Notification) (rest : Bytes) → IsLine n
    → Lacks b n.message
    → Lacks b rest
    → Lacks b (entry n rest)
entry-Lacks b k n rest v m r =
    let text = serialize_all n in
    let Plain : ℕ → Type 0 = λ c. c ≢ b in
    All-append Plain (print (length text)) _ (print-Lacks b (omega arith) (length text))
      (omega arith, All-append Plain text rest (serialize_all-Lacks b k n v m) r)

later_notes-Lacks :
    (b : ℕ)
    → b < 32
    → (ns : List Notification) → All IsLine ns
    → All (λ n. Lacks b n.message) ns
    → Lacks b (later_notes ns)
later_notes-Lacks b k [] h m = tt
later_notes-Lacks b k (n ∷ ns) h m =
    (omega arith, entry-Lacks b k n (later_notes ns) h.0 m.0 (later_notes-Lacks b k ns h.1 m.1))

notes-Lacks :
    (b : ℕ)
    → b < 32
    → (ns : List Notification) → All IsLine ns
    → All (λ n. Lacks b n.message) ns
    → Lacks b (notes ns)
notes-Lacks b k [] h m = tt
notes-Lacks b k (n ∷ ns) h m =
    entry-Lacks b k n (later_notes ns) h.0 m.0 (later_notes-Lacks b k ns h.1 m.1)

pub sender_line-Lacks :
    (b : ℕ)
    → b < 32
    → (e : Bytes × List Notification) → IsSender e
    → All (λ n. Lacks b n.message) e.1
    → Lacks b (sender_line e)
sender_line-Lacks b k (name, ns) v m =
    let Plain : ℕ → Type 0 = λ c. c ≢ b in
    All-append Plain name _ (visible-Lacks b name (omega arith) v.name.visible) (
      omega arith,
      All-append Plain (print (length ns)) _ (print-Lacks b (omega arith) (length ns))
          (omega arith, notes-Lacks b k ns v.lines m),
    )

pub queue_line-Lacks :
    (b : ℕ) → b < 32 → (e : Bytes × NotificationQueue) → IsUser e → Lacks b (queue_line e)
queue_line-Lacks b k (name, q) v =
    let text = Queues.serialize q in
    let Plain : ℕ → Type 0 = λ c. c ≢ b in
    All-append Plain name _ (visible-Lacks b name (omega arith) v.name.visible) (
      omega arith,
      All-append Plain (print (length text)) _ (print-Lacks b (omega arith) (length text))
          (omega arith, serialize_queue-Lacks b k q v.entries),
    )

pub messages-Lacks-newline :
    (ns : List Notification) → All IsLine ns → All (λ n. Lacks b'\n' n.message) ns
messages-Lacks-newline [] h = tt
messages-Lacks-newline (n ∷ ns) h = (h.0.message_line, messages-Lacks-newline ns h.1)

pub messages-Lacks-nul : (ns : List Notification) → All IsLine ns → All (λ n. Lacks 0 n.message) ns
messages-Lacks-nul [] h = tt
messages-Lacks-nul (n ∷ ns) h = (h.0.message_whole, messages-Lacks-nul ns h.1)
