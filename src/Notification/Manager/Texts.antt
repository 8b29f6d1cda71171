-- ===== src/Notification/Manager/Texts.antt =====
-- src/server/notification/NotificationManager.cpp: the text form that the leader sends to the other
-- replicas, both ways.
use twitter_clone.Prelude.{
  ℕ, zero, suc, Bool, true, false, List, [], ◌∷◌, ◌++◌, Option, some, if◌then◌else◌, is_empty, drop,
  length, Bytes, codes, ℤ, pos_part, to_unsigned,
}
use twitter_clone.Prelude.Map.{Map, emplace}
use twitter_clone.Text.{split, split_first}
use twitter_clone.Numbers.{print, scan_int, stoi}
use twitter_clone.Packet.{c_str, word}
use twitter_clone.Streams.{read_counted, ◌>>=◌}
use twitter_clone.Notification.{Notification, serialize_all, deserialize_all}
use twitter_clone.Notification.Queues.{NotificationQueue}
use twitter_clone.Notification.Queues
use twitter_clone.Notification.Manager.{NotificationManager}

-- serialize: each sender's line with her notifications, and each user's with her queue.
unfoldable pub serialize_notifications : List Notification → Bool → Bytes → Bytes
serialize_notifications [] first s = s
serialize_notifications (n ∷ ns) first s =
    let text = serialize_all n in
    let entry = print (length text) ++ (codes " " ++ text) in
    serialize_notifications ns false (s ++ (if first then entry else codes "," ++ entry))

unfoldable pub serialize_senders : Map (List Notification) → Bytes → Bytes
serialize_senders [] s = s
serialize_senders ((name, ns) ∷ senders) s =
    let line = s ++ (name ++ (codes " " ++ (print (length ns) ++ codes " "))) in
    serialize_senders senders (serialize_notifications ns true line ++ codes "\n")

unfoldable pub serialize_queues : Map NotificationQueue → Bytes → Bytes
serialize_queues [] s = s
serialize_queues ((name, q) ∷ queues) s =
    let text = Queues.serialize q in
    serialize_queues queues
      (s ++ (name ++ (codes " " ++ (print (length text) ++ (codes " " ++ (text ++ codes "\n"))))))

unfoldable pub serialize : NotificationManager → Bytes
serialize m =
    serialize_queues m.pending_queues
      (serialize_senders m.notifications (print m.next_id ++ codes "\n") ++ codes "\n&\n")

-- deserialize: the loop over a sender's notifications, as often as the size says. Each is followed
-- by one byte that is skipped.
unfoldable pub read_notifications : Bool → ℕ → Bytes → Option (List Notification)
read_notifications spare_byte zero s = some []
read_notifications spare_byte (suc n) s = do
  (text, s₁) ← read_counted spare_byte s
  x ← deserialize_all spare_byte text
  xs ← read_notifications spare_byte n (drop 1 s₁)
  some (x ∷ xs)

-- One line of the first part: the sender, the number of her notifications, and these.
unfoldable pub read_sender : Bool → Bytes → Option (Bytes × List Notification)
read_sender spare_byte line = do
  (name, s) ← word line
  (size, s₁) ← scan_int s
  ns ← read_notifications spare_byte (pos_part size) s₁
  some (name, ns)

-- One line of the second part: the user and her queue, with the length of its text.
unfoldable pub read_queue : Bool → Bytes → Option (Bytes × NotificationQueue)
read_queue spare_byte line = do
  (name, s) ← word line
  (text, _) ← read_counted spare_byte s
  q ← Queues.deserialize spare_byte (c_str text)
  some (name, q)

-- Empty lines are skipped, and the first entry for a name stays.
abbrev pub read_line {ℓ} :
    {V : Type ℓ} → (Bytes → Option (Bytes × V)) → Bytes → Map V → Option (Map V)
read_line read line entries =
    if is_empty line
    then some entries
    else (do (name, v) ← read line; some (emplace name v entries))

-- The loop over the lines.
unfoldable pub read_entries {ℓ} :
    {V : Type ℓ} → (Bytes → Option (Bytes × V)) → List Bytes → Map V → Option (Map V)
read_entries read [] entries = some entries
read_entries read (line ∷ lines) entries = read_line read line entries >>= read_entries read lines

-- Behind the id: the senders' lines, and the queues' lines.
abbrev pub read_parts : Bool → NotificationManager → ℤ → List Bytes → Option NotificationManager
read_parts spare_byte m id (senders ∷ queues ∷ []) = do
  lines ← split senders (codes "\n")
  notifications ← read_entries (read_sender spare_byte) lines []
  queue_lines ← split queues (codes "\n")
  pending_queues ← read_entries (read_queue spare_byte) queue_lines []
  some (record m {
    next_id = to_unsigned id;
    notifications = notifications;
    pending_queues = pending_queues;
  })
read_parts spare_byte m id _ = some m

abbrev pub read_id : Bool → NotificationManager → List Bytes → Option NotificationManager
read_id spare_byte m (first ∷ rest ∷ []) = do
  id ← stoi first
  read_parts spare_byte m id (split_first rest (codes "\n&\n"))
read_id spare_byte m _ = some m

-- deserialize; none where std::stoi throws, where something of a line is missing, and where the NULs
-- that are written behind the buffers do harm.
unfoldable pub deserialize : Bool → NotificationManager → Bytes → Option NotificationManager
deserialize spare_byte m raw = read_id spare_byte m (split_first raw (codes "\n"))
