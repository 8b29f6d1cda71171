-- ===== src/Examples/Clients.antt =====
-- A client's commands, its keys and its feed.
use twitter_clone.Prelude.{
  ℕ, ◌%◌, ◌≡◌, ◌≢◌, true, false, List, [], ◌∷◌, ◌++◌, map, Option, none, some, arith, codes, pos,
  length, if◌then◌else◌, ◌==◌,
}
use twitter_clone.Packet.{Packet}
use twitter_clone.Packet.Types.{data_type}
use twitter_clone.Notification as Server
use twitter_clone.Providers.{
  Address, IsOneOf, frontend_addresses, try_any, first_success, rotated, try_any_lem,
}
use twitter_clone.Client.{Notification}
use twitter_clone.Client.Input.{TextInput}
use twitter_clone.Client.Session.{Session, Key}
use twitter_clone.Client.Feed.{Consumer, page, items_per_page, lines_per_item}
use twitter_clone.Client.Feed.Scrolling.{
  Event, arrives, key_down, key_up, on_all, InRange, on_all-page,
}

-- Only the second address accepts.
abbrev second_accepts : ℕ → Address → Option ℕ
second_accepts tries a = if a.port == 6666 then some tries else none

try_any_example :
    (try_any second_accepts 3
      ≡ first_success second_accepts 0 (rotated second_accepts (3 % 4) frontend_addresses))
    × ((a : Address)
        → IsOneOf second_accepts a frontend_addresses
        → ((k : ℕ) → second_accepts k a ≢ none)
        → try_any second_accepts 3 ≢ none)
try_any_example = try_any_lem second_accepts 3

abbrev box : TextInput
box = record { text = []; max_size = pos 128 }

abbrev hi : Server.Notification
hi = record {
  id = pos 3;
  timestamp = 5;
  username = codes "@amy";
  pending_count = pos 1;
  message = codes "hi";
}

abbrev sent : List Packet
sent =
    record {
      length = pos 40;
      type = data_type;
      sequence_number = pos 0;
      timestamp = 5;
      payload = Server.serialize hi;
    }
    ∷ []

abbrev old : Notification
old = record { id = pos 1; sender = codes "@bob"; date = codes "May"; message = codes "old" }

abbrev waiting_client : Consumer
waiting_client = record {
  feed = record { width = 58; height = 12; items = old ∷ old ∷ []; showing_begin = 0 };
  label = [];
  should_reconnect = false;
}

two-InRange : InRange waiting_client.feed
unfolding items_per_page lines_per_item
two-InRange = record { whole_page = omega arith }

abbrev events : List Event
events = key_down ∷ arrives old ∷ key_down ∷ key_up ∷ []

on_all-page_example :
    InRange (on_all waiting_client.feed events)
    × (length (page (on_all waiting_client.feed events))
        ≡ items_per_page (on_all waiting_client.feed events))
on_all-page_example = on_all-page waiting_client.feed events (omega arith) two-InRange

abbrev typing : Session
typing = record {
  username = codes "@amy";
  connection = some 4;
  should_reconnect = false;
  has_receiver = true;
  label = [];
  feed = waiting_client.feed;
  text_input = box;
  sent = [];
}

abbrev key_c : Key
key_c = record {
  event = pos b'c';
  random = 0;
  attempt = λ tries a. none;
  answer = none;
  typed = map pos (codes "SEND hi") ++ pos b'\n' ∷ [];
  scrolled = [];
}
