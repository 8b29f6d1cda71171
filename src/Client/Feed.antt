-- ===== src/Client/Feed.antt =====
-- src/client/ConnectionConsumer.cpp and src/client/ui/NotificationList.cpp: the thread that reads
-- what the server sends, and the list of notifications that it fills, the newest first.
pub mod Delivery
pub mod Scrolling
pub mod Offline
pub mod Drawing
use twitter_clone.Prelude.{
  ℕ, ◌+◌, ◌-◌, ◌/◌, ◌%◌, ◌^◌, Bool, true, false, List, [], ◌∷◌, Option, none, some, ltb,
  if◌then◌else◌, length, take, drop, Bytes, codes,
}
use twitter_clone.Packet.{Packet}
use twitter_clone.Packet.Types.{PacketType, data_type, success, error}
use twitter_clone.Client.{Notification, Read, notification, nothing, overflow, deserialize}

pub record NotificationList : Type 0 where
  -- m_size.
  pub width : ℕ
  pub height : ℕ
  pub items : List Notification
  -- m_showingBegin.
  pub showing_begin : ℕ

unfoldable pub add_item : Notification → NotificationList → NotificationList
add_item item l = record l { items = item ∷ l.items }

-- Notification::MAX_SIZE.
abbrev pub max_size : ℕ
max_size = 128

-- The quotient of MAX_SIZE and the width is rounded up. The width is positive.
unfoldable pub lines_per_item : NotificationList → ℕ
lines_per_item l = 1 + 2 + (max_size + l.width - 1) / l.width

unfoldable pub items_per_page : NotificationList → ℕ
items_per_page l = l.height / lines_per_item l

-- m_list.size()-itemsPerPage() is unsigned and wraps around.
unfoldable pub show_next : NotificationList → NotificationList
show_next l =
    if ltb l.showing_begin ((length l.items + 2 ^ 64 - items_per_page l) % 2 ^ 64)
    then record l { showing_begin = (l.showing_begin + 1) % 2 ^ 64 }
    else l

unfoldable pub show_previous : NotificationList → NotificationList
show_previous l =
    if ltb 0 l.showing_begin then record l { showing_begin = l.showing_begin - 1 } else l

-- What draw prints: the items of a page, from the first that is shown.
unfoldable pub page : NotificationList → List Notification
page l = take (items_per_page l) (drop l.showing_begin l.items)

-- The feed, the text of the label, and m_shouldReconnect.
pub record Consumer : Type 0 where
  pub feed : NotificationList
  pub label : Bytes
  pub should_reconnect : Bool

module _ (beautify_time : ℕ → Bytes) where
  -- A notification that is not read is a NULL pointer, which the code follows: none.
  abbrev pub add_read : Consumer → Read → Option Consumer
  add_read c overflow = none
  add_read c nothing = none
  add_read c (notification n) = some (record c { feed = add_item n c.feed })

  abbrev pub consume_type : Consumer → PacketType → Bytes → Option Consumer
  consume_type c data_type payload = add_read c (deserialize beautify_time payload)
  consume_type c success payload = some (record c { label = payload })
  consume_type c error payload = some (record c { label = payload })
  consume_type c _ payload = some c

  -- The connection is lost.
  unfoldable pub lose : Consumer → Consumer
  lose c = record c {
    label = codes "Connection lost. Trying to reconnect...";
    should_reconnect = true;
  }

  abbrev pub and_then : Option Consumer → (Consumer → Option Consumer) → Option Consumer
  and_then none f = none
  and_then (some c) f = f c

  -- The loop over the packets, which ends with the connection.
  unfoldable pub consume : Consumer → List Packet → Option Consumer
  consume c [] = some (lose c)
  consume c (p ∷ ps) = and_then (consume_type c p.type p.payload) (λ c'. consume c' ps)

  -- run: nothing is read where the flag is already set.
  unfoldable pub run : Consumer → List Packet → Option Consumer
  run c ps = if c.should_reconnect then some c else consume c ps
