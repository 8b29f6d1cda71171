-- ===== src/Notification/Wire.antt =====
-- The text forms of notifications, pending entries and queues that a replica reads.
use twitter_clone.Prelude.{
  ℕ, true, ◌≤◌, ◌<◌, ◌≡◌, ◌≢◌, refl, sym, ap, ◌∙◌, List, [], ◌∷◌, ◌++◌, some, arith, length, All,
  All-append, Bytes, Lacks, codes, IsInt, int_max, append-nil, append_assoc,
}
use twitter_clone.Numbers.{print, print_int, ulong_max}
use twitter_clone.Numbers.Digits.{print_int-Lacks, print-Lacks}
use twitter_clone.Numbers.RoundTrip.{
  NoDigit, scan_int-print, scan_int-print_int, scan_unsigned-print,
}
use twitter_clone.Packet.Header.{IsVisible, visible-Lacks, c_str-Lacks}
use twitter_clone.Streams.Counted.{
  word-visible, word-blank, scan_int-blank, scan_unsigned-blank, read_counted-print,
  read_counted-print_end, read_counted-blank, blank_is_space, blank_NoDigit,
}
use twitter_clone.Notification.{
  Notification, PendingNotification, serialize_all, deserialize_all, serialize_pending,
  deserialize_pending,
}
use twitter_clone.Notification.Queues.{
  NotificationQueue, serialize, deserialize, serialize_entries, read_entries,
}

-- A name that is one visible word.
pub record IsName (name : Bytes) : Type 0 where
  pub visible : All IsVisible name
  pub some_byte : name ≢ []

-- A notification of one line, with numbers that fit.
pub record IsLine (n : Notification) : Type 0 where
  pub id_fits : IsInt n.id
  pub timestamp_fits : n.timestamp ≤ ulong_max
  pub sender_name : IsName n.username
  pub count_fits : IsInt n.pending_count
  pub message_fits : length n.message ≤ int_max
  pub message_line : Lacks b'\n' n.message
  pub message_whole : Lacks 0 n.message
  pub text_fits : length (serialize_all n) ≤ int_max

pub deserialize_all-serialize_all :
    (n : Notification) → IsLine n → deserialize_all true (serialize_all n) ≡ some n
unfolding deserialize_all serialize_all
deserialize_all-serialize_all n v = rw (scan_int-print_int n.id _ v.id_fits blank_NoDigit) (
    rw (scan_unsigned-blank _, scan_unsigned-print n.timestamp _ v.timestamp_fits blank_NoDigit)
      (rw
        (
          word-blank _,
          word-visible n.username _ b' ' v.sender_name.some_byte v.sender_name.visible
              blank_is_space,
        )
        (rw (scan_int-blank _, scan_int-print_int n.pending_count _ v.count_fits blank_NoDigit)
          (rw (read_counted-blank _, c_str-Lacks n.message v.message_whole)
            (rw (read_counted-print_end n.message v.message_whole v.message_fits) refl)))))

-- A pending entry whose numbers fit.
pub record IsEntry (p : PendingNotification) : Type 0 where
  pub sender_name : IsName p.sender
  pub id_fits : IsInt p.notification_id
  pub text_fits : length (serialize_pending p) ≤ int_max

serialize_pending-Lacks :
    (b : ℕ) → b < 32 → (p : PendingNotification) → IsEntry p → Lacks b (serialize_pending p)
unfolding serialize_pending
serialize_pending-Lacks b k p v =
    All-append (λ c. c ≢ b) p.sender _
      (visible-Lacks b p.sender (omega arith) v.sender_name.visible)
      (omega arith, print_int-Lacks b (omega arith) p.notification_id)

deserialize_pending-serialize_pending :
    (p : PendingNotification) → IsEntry p → deserialize_pending (serialize_pending p) ≡ some p
unfolding deserialize_pending serialize_pending
deserialize_pending-serialize_pending p v =
    rw (word-visible p.sender _ b' ' v.sender_name.some_byte v.sender_name.visible blank_is_space) (
      rw (scan_int-blank _, ← append-nil (print_int p.notification_id))
        (rw (scan_int-print_int p.notification_id [] v.id_fits tt) refl))

-- The entries, each behind a blank and its length.
abbrev entries : List PendingNotification → Bytes
entries [] = []
entries (p ∷ ps) =
    let text = serialize_pending p in
    codes " " ++ (print (length text) ++ (codes " " ++ (text ++ entries ps)))

serialize_entries-eq :
    (ps : List PendingNotification) (s : Bytes) → serialize_entries ps s ≡ s ++ entries ps
unfolding serialize_entries
serialize_entries-eq [] s = sym (append-nil s)
serialize_entries-eq (p ∷ ps) s =
    let text = serialize_pending p in
    serialize_entries-eq ps _
    ∙ append_assoc s _ (entries ps)
    ∙ ap (λ t. s ++ (codes " " ++ t)) (append_assoc (print (length text)) _ (entries ps))

read_entries-entries :
    (ps : List PendingNotification)
    → All IsEntry ps
    → read_entries true (length ps) (entries ps) ≡ some ps
unfolding read_entries
read_entries-entries [] h = refl
read_entries-entries (p ∷ ps) h =
    let text = serialize_pending p in
    rw
      (
        read_counted-blank _,
        read_counted-print text (entries ps) (serialize_pending-Lacks 0 (omega arith) p h.0)
            h.0.text_fits,
      )
      (rw (deserialize_pending-serialize_pending p h.0, read_entries-entries ps h.1) refl)

entries_stop : (ps : List PendingNotification) → NoDigit (entries ps)
entries_stop [] = tt
entries_stop (p ∷ ps) = blank_NoDigit

-- A queue arrives with its entries in their order, and without its subscribers.
pub deserialize-serialize_queue :
    (q : NotificationQueue)
    → All IsEntry q.pending
    → length q.pending ≤ int_max
    → deserialize true (serialize q) ≡ some (record { subscribers = []; pending = q.pending })
unfolding deserialize serialize
deserialize-serialize_queue q h fits =
    rw (serialize_entries-eq q.pending (print (length q.pending))) (
      rw
        (
          scan_int-print (length q.pending) (entries q.pending) fits (entries_stop q.pending),
          read_entries-entries q.pending h,
        )
        refl)

entries-Lacks :
    (b : ℕ) → b < 32 → (ps : List PendingNotification) → All IsEntry ps → Lacks b (entries ps)
entries-Lacks b k [] h = tt
entries-Lacks b k (p ∷ ps) h =
    let text = serialize_pending p in
    let Plain : ℕ → Type 0 = λ c. c ≢ b in
    (
      omega arith,
      All-append Plain (print (length text)) _ (print-Lacks b (omega arith) (length text)) (
        omega arith,
        All-append Plain text _ (serialize_pending-Lacks b k p h.0) (entries-Lacks b k ps h.1),
      ),
    )

pub serialize_queue-Lacks :
    (b : ℕ) → b < 32 → (q : NotificationQueue) → All IsEntry q.pending → Lacks b (serialize q)
unfolding serialize
serialize_queue-Lacks b k q h = rw (serialize_entries-eq q.pending (print (length q.pending))) (
    All-append (λ c. c ≢ b) (print (length q.pending)) _
      (print-Lacks b (omega arith) (length q.pending)) (entries-Lacks b k q.pending h))

pub serialize_all-Lacks :
    (b : ℕ) → b < 32 → (n : Notification) → IsLine n → Lacks b n.message → Lacks b (serialize_all n)
unfolding serialize_all
serialize_all-Lacks b k n v m =
    let Plain : ℕ → Type 0 = λ c. c ≢ b in
    rw (c_str-Lacks n.message v.message_whole) (
      All-append Plain (print_int n.id) _ (print_int-Lacks b (omega arith) n.id) (
        omega arith,
        All-append Plain (print n.timestamp) _ (print-Lacks b (omega arith) n.timestamp) (
          omega arith,
          All-append Plain n.username _
              (visible-Lacks b n.username (omega arith) v.sender_name.visible)
              (
                omega arith,
                All-append Plain (print_int n.pending_count) _
                    (print_int-Lacks b (omega arith) n.pending_count)
                    (
                      omega arith,
                      All-append Plain (print (length n.message)) _
                          (print-Lacks b (omega arith) (length n.message)) (omega arith, m),
                    ),
              ),
        ),
      ))
