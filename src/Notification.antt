-- ===== src/Notification.antt =====
-- src/server/notification: notifications, the ones that wait for a user, and their text forms.
pub mod Queues
pub mod Manager
pub mod Wire
pub mod Consumer
use twitter_clone.Prelude.{
  ℕ, suc, ◌+◌, ◌%◌, ◌^◌, Bool, true, false, List, [], ◌∷◌, ◌++◌, Option, none, some, ◌==◌,
  if◌then◌else◌, length, Bytes, codes, ℤ, pos, negsuc,
}
use twitter_clone.Numbers.{print, print_int, scan_int, scan_unsigned}
use twitter_clone.Packet.{c_str, word}
use twitter_clone.Streams.{read_counted, ◌>>=◌}

pub record Notification : Type 0 where
  pub id : ℤ
  pub timestamp : ℕ
  pub username : Bytes
  pub pending_count : ℤ
  pub message : Bytes

-- Notification(), at the time `now`.
unfoldable pub blank_notification : ℕ → Notification
blank_notification now = record {
  id = negsuc 0;
  timestamp = now;
  username = [];
  pending_count = negsuc 0;
  message = [];
}

-- The text that a client is sent.
unfoldable pub serialize : Notification → Bytes
serialize n =
    (codes "id:" ++ print_int n.id)
    ++ (b'\n'
        ∷ ((codes "timestamp:" ++ print n.timestamp)
            ++ (b'\n'
                ∷ ((codes "sender:" ++ n.username)
                    ++ (b'\n'
                        ∷ ((codes "length:" ++ print (length n.message))
                            ++ (codes "\n\n" ++ c_str n.message)))))))

-- The text that a replica is sent.
unfoldable pub serialize_all : Notification → Bytes
serialize_all n =
    print_int n.id
    ++ (codes " "
        ++ (print n.timestamp
            ++ (codes " "
                ++ (n.username
                    ++ (codes " "
                        ++ (print_int n.pending_count
                            ++ (codes " "
                                ++ (print (length n.message)
                                    ++ (codes " " ++ c_str n.message)))))))))

pub record PendingNotification : Type 0 where
  pub sender : Bytes
  pub notification_id : ℤ

unfoldable pub no_pending : PendingNotification
no_pending = record { sender = []; notification_id = negsuc 0 }

unfoldable pub serialize_pending : PendingNotification → Bytes
serialize_pending p = p.sender ++ (codes " " ++ print_int p.notification_id)

-- deserializeAll: none where a word, a number or a byte is missing; the code then goes on with
-- variables that are not set.
unfoldable pub deserialize_all : Bool → Bytes → Option Notification
deserialize_all spare_byte s = do
  (id, s₁) ← scan_int s
  (timestamp, s₂) ← scan_unsigned s₁
  (username, s₃) ← word s₂
  (pending_count, s₄) ← scan_int s₃
  (message, _) ← read_counted spare_byte s₄
  some (record {
    id = id;
    timestamp = timestamp;
    username = username;
    pending_count = pending_count;
    message = message;
  })

-- PendingNotification::deserialize; none where the word or the number is missing.
unfoldable pub deserialize_pending : Bytes → Option PendingNotification
deserialize_pending s = do
  (sender, s₁) ← word s
  (id, _) ← scan_int s₁
  some (record { sender = sender; notification_id = id })
