-- ===== src/Notification/Manager/RoundTrip.antt =====
-- A replica that reads the leader's text has the leader's notifications.
use twitter_clone.Prelude.{
  ℕ, true, ◌+◌, ◌≤◌, ◌<◌, ◌≡◌, ◌≢◌, refl, sym, subst, ap, ◌∙◌, List, [], ◌∷◌, ◌++◌, map, some,
  arith, length, length-append, false, is_empty, All, All-append, Bytes, Lacks, codes, int_max,
  append_assoc,
}
use twitter_clone.Prelude.Map.{Map}
use twitter_clone.Text.{split_first, size_mod}
use twitter_clone.Text.Rows.{lines_text, split-lines_text, lines_text-Lacks, All-lines, All-map}
use twitter_clone.Prelude.Distinct.{DistinctKeys, map_values, NewTo-empty}
use twitter_clone.Text.Find.{split_first-Clear}
use twitter_clone.Text.Split.{Lacks-Clear}
use twitter_clone.Numbers.{print}
use twitter_clone.Numbers.Digits.{print-Lacks}
use twitter_clone.Numbers.RoundTrip.{stoi-print}
use twitter_clone.Packet.{c_str}
use twitter_clone.Packet.Header.{c_str-Lacks}
use twitter_clone.Notification.{Notification}
use twitter_clone.Notification.Queues.{NotificationQueue}
use twitter_clone.Notification.Manager.{NotificationManager}
use twitter_clone.Notification.Manager.Texts.{
  serialize, deserialize, read_sender, read_queue, read_entries,
}
use twitter_clone.Notification.Manager.Lines.{mark, IsRow, Clear-lines_text, read_entries-lines}
use twitter_clone.Notification.Manager.Wire.{
  IsSender, IsUser, sender_line, queue_line, serialize_senders-eq, serialize_queues-eq,
  read_sender-line, read_queue-line, unsubscribed, sender_line-Lacks, queue_line-Lacks,
  messages-Lacks-newline, messages-Lacks-nul,
}

-- Names of one visible word, messages of one line, and numbers and texts that fit.
pub record IsWritable (m : NotificationManager) : Type 0 where
  pub id_fits : m.next_id ≤ int_max
  pub senders : All IsSender m.notifications
  pub users : All IsUser m.pending_queues
  pub senders_distinct : DistinctKeys m.notifications
  pub users_distinct : DistinctKeys m.pending_queues
  pub text_fits : length (serialize m) < size_mod

module _ (m : NotificationManager) where
  abbrev sender_lines : List Bytes
  sender_lines = map sender_line m.notifications

  abbrev queue_lines : List Bytes
  queue_lines = map queue_line m.pending_queues

  serialize-eq :
      serialize m
      ≡ print m.next_id
        ++ (codes "\n" ++ (lines_text sender_lines ++ (mark ++ lines_text queue_lines)))
  unfolding serialize
  serialize-eq =
      serialize_queues-eq m.pending_queues _
      ∙ ap (λ t. (t ++ mark) ++ lines_text queue_lines)
          (serialize_senders-eq m.notifications (print m.next_id ++ codes "\n"))
      ∙ simp append_assoc

word-two_bytes : (w rest : Bytes) → w ≢ [] → 2 ≤ length (w ++ b' ' ∷ rest)
word-two_bytes [] rest h = absurd (h refl)
word-two_bytes (c ∷ w) rest h = omega (arith, length-append w (b' ' ∷ rest))

sender_line-IsRow : (e : Bytes × List Notification) → IsSender e → IsRow (sender_line e)
sender_line-IsRow (name, ns) v = record {
  one_line = sender_line-Lacks b'\n' (omega arith) (name, ns) v (messages-Lacks-newline ns v.lines);
  two_bytes = word-two_bytes name _ v.name.some_byte;
}

queue_line-IsRow : (e : Bytes × NotificationQueue) → IsUser e → IsRow (queue_line e)
queue_line-IsRow (name, q) v = record {
  one_line = queue_line-Lacks b'\n' (omega arith) (name, q) v;
  two_bytes = word-two_bytes name _ v.name.some_byte;
}

rows-Lacks : (ls : List Bytes) → All IsRow ls → All (Lacks b'\n') ls
rows-Lacks [] h = tt
rows-Lacks (l ∷ ls) h = (h.0.one_line, rows-Lacks ls h.1)

row_not_empty : (l : Bytes) → IsRow l → is_empty l ≡ false
row_not_empty [] r = absurd (omega (arith, r.two_bytes))
row_not_empty (c ∷ l) r = refl

same_values : (m : Map (List Notification)) → map_values (λ ns. ns) m ≡ m
same_values [] = refl
same_values (e ∷ m) = ap (λ t. e ∷ t) (same_values m)

module _ (m : NotificationManager) (w : IsWritable m) where
  senders-IsRow : All IsRow (sender_lines m)
  senders-IsRow = All-lines IsRow sender_line sender_line-IsRow m.notifications w.senders

  queues-IsRow : All IsRow (queue_lines m)
  queues-IsRow = All-lines IsRow queue_line queue_line-IsRow m.pending_queues w.users

  read_senders :
      read_entries (read_sender true) (sender_lines m ++ [] ∷ []) [] ≡ some m.notifications
  read_senders =
      read_entries-lines (read_sender true) sender_line (λ ns. ns) m.notifications []
        (All-map read_sender-line m.notifications w.senders)
        (All-map (λ e v. row_not_empty (sender_line e) (sender_line-IsRow e v)) m.notifications
          w.senders)
        w.senders_distinct (NewTo-empty m.notifications)
      ∙ ap some (same_values m.notifications)

  read_queues :
      read_entries (read_queue true) (queue_lines m ++ [] ∷ []) []
      ≡ some (map unsubscribed m.pending_queues)
  read_queues =
      read_entries-lines (read_queue true) queue_line (λ q. record q { subscribers = [] })
        m.pending_queues [] (All-map read_queue-line m.pending_queues w.users)
        (All-map (λ e v. row_not_empty (queue_line e) (queue_line-IsRow e v)) m.pending_queues
          w.users)
        w.users_distinct (NewTo-empty m.pending_queues)

  -- Behind the id.
  body : Bytes
  body = lines_text (sender_lines m) ++ (mark ++ lines_text (queue_lines m))

  length-serialize :
      length (print m.next_id)
        + (1 + (length (lines_text (sender_lines m)) + (3 + length (lines_text (queue_lines m)))))
      ≡ length (serialize m)
  length-serialize = omega (
    arith,
    ap length (serialize-eq m),
    length-append (print m.next_id)
        (codes "\n" ++ (lines_text (sender_lines m) ++ (mark ++ lines_text (queue_lines m)))),
    length-append (lines_text (sender_lines m)) (mark ++ lines_text (queue_lines m)),
  )

  split_id : split_first (serialize m) (codes "\n") ≡ print m.next_id ∷ body ∷ []
  unfolding body
  split_id =
      ap (λ t. split_first t (codes "\n")) (serialize-eq m)
      ∙ split_first-Clear (codes "\n") (print m.next_id) _
          (Lacks-Clear b'\n' (print m.next_id) _ (print-Lacks b'\n' (omega arith) m.next_id))
          (omega (arith, length-serialize, w.text_fits))

  split_body : split_first body mark ≡ lines_text (sender_lines m) ∷ lines_text (queue_lines m) ∷ []
  unfolding body
  split_body =
      split_first-Clear mark (lines_text (sender_lines m)) (lines_text (queue_lines m))
        (Clear-lines_text (sender_lines m) (lines_text (queue_lines m)) senders-IsRow)
        (omega (arith, length-serialize, w.text_fits))

  -- A replica that reads the leader's text has the next id, every sender's notifications and
  -- every user's pending entries as the leader has them; its queues have no subscribers. Names
  -- are visible words and distinct, messages have one line and no NUL, the next id is at most
  -- the greatest int, and the other numbers and texts fit their types. The byte behind each
  -- buffer of the replica, where it writes a NUL, can be written without harm.
  pub deserialize-serialize_manager :
      (m₀ : NotificationManager)
      → deserialize true m₀ (serialize m)
        ≡ some (record m₀ {
          next_id = m.next_id;
          notifications = m.notifications;
          pending_queues = map unsubscribed m.pending_queues;
        })
  unfolding deserialize
  deserialize-serialize_manager m₀ =
      rw (split_id, stoi-print m.next_id w.id_fits, split_body)
        (rw
          (
            split-lines_text (sender_lines m) (rows-Lacks (sender_lines m) senders-IsRow),
            read_senders,
          )
          (rw
            (
              split-lines_text (queue_lines m) (rows-Lacks (queue_lines m) queues-IsRow),
              read_queues,
            )
            (ap
              (λ n. some (record m₀ {
                next_id = n;
                notifications = m.notifications;
                pending_queues = map unsubscribed m.pending_queues;
              }))
              (omega (arith, w.id_fits)))))

-- Nothing of the text is lost when it is handed over as a C string.
pub c_str-serialize_manager :
    (m : NotificationManager) → IsWritable m → c_str (serialize m) ≡ serialize m
c_str-serialize_manager m w =
    let Plain : ℕ → Type 0 = λ c. c ≢ 0 in
    let senders =
      All-lines (Lacks 0) sender_line
        (λ e v. sender_line-Lacks 0 (omega arith) e v (messages-Lacks-nul e.1 v.lines))
        m.notifications w.senders in
    let queues =
      All-lines (Lacks 0) queue_line (queue_line-Lacks 0 (omega arith)) m.pending_queues w.users in
    c_str-Lacks (serialize m) (
      subst (Lacks 0) (sym (serialize-eq m)) (
        All-append Plain (print m.next_id) _ (print-Lacks 0 (omega arith) m.next_id) (
          omega arith,
          All-append Plain (lines_text (sender_lines m)) _
              (lines_text-Lacks (sender_lines m) senders)
              (omega arith, (omega arith, (omega arith, lines_text-Lacks (queue_lines m) queues))),
        )))
