-- ===== src/Client.antt =====
-- src/client/Notification.cpp: how a client reads a notification. The date format of beautifyTime
-- is the C library's and is an argument.
pub mod Screen
pub mod Reading
pub mod Commands
pub mod Feed
pub mod Input
pub mod Session
use twitter_clone.Prelude.{
  ℕ, ◌+◌, Bool, List, [], ◌∷◌, Option, none, some, ltb, if◌then◌else◌, length, Bytes, codes, ℤ,
}
use twitter_clone.Text.{split_first}
use twitter_clone.Numbers.{scan_int, scan_unsigned}
use twitter_clone.Packet.{c_str, literal, blank, word}
use twitter_clone.Profile.{◌>>=◌}

pub record Notification : Type 0 where
  pub id : ℤ
  pub sender : Bytes
  pub date : Bytes
  pub message : Bytes

pub data Read : Type 0 where
  -- The word did not fit senderBuff.
  overflow : Read
  -- NULL.
  nothing : Read
  notification : Notification → Read

-- sizeof senderBuff.
abbrev pub sender_buffer_size : ℕ
sender_buffer_size = 45

-- The id, the timestamp and the sender, and what follows them; none if one was not read.
unfoldable pub scan_sender : Bytes → Option (ℤ × ℕ × Bytes × Bytes)
scan_sender s = do
  s₁ ← literal (codes "id:") s
  (id, s₂) ← scan_int s₁
  s₃ ← literal (codes "timestamp:") (blank s₂)
  (timestamp, s₄) ← scan_unsigned s₃
  s₅ ← literal (codes "sender:") (blank s₄)
  (sender, s₆) ← word s₅
  some (id, timestamp, sender, s₆)

unfoldable pub scan_length : Bytes → Option (ℤ × Bytes)
scan_length s = do s₁ ← literal (codes "length:") (blank s); scan_int s₁

module _ (beautify_time : ℕ → Bytes) where
  abbrev pub with_length : ℤ → ℕ → Bytes → Bytes → Option (ℤ × Bytes) → Read
  with_length id timestamp sender message none = nothing
  with_length id timestamp sender message (some _) =
      notification
        (record { id = id; sender = sender; date = beautify_time timestamp; message = message })

  abbrev pub with_sender : Bytes → Option (ℤ × ℕ × Bytes × Bytes) → Read
  with_sender message none = nothing
  with_sender message (some (id, timestamp, sender, s)) =
      if ltb (length sender) sender_buffer_size
      then with_length id timestamp sender message (scan_length s)
      else overflow

  abbrev pub from_parts : List Bytes → Read
  from_parts (header ∷ message ∷ []) = with_sender message (scan_sender (c_str header))
  from_parts _ = nothing

  unfoldable pub deserialize : Bytes → Read
  deserialize raw = from_parts (split_first raw (codes "\n\n"))
