-- ===== src/Examples/Delivering.antt =====
-- The thread that sends notifications, and a notification that reaches an offline follower's feed.
use twitter_clone.Prelude.{
  ◌+◌, ◌<◌, ◌≡◌, refl, arith, true, false, List, [], ◌∷◌, some, codes, pos, to_int, length,
}
use twitter_clone.Text.{size_mod}
use twitter_clone.Numbers.{print, print_int}
use twitter_clone.Packet.{Packet}
use twitter_clone.Notification.{Notification}
use twitter_clone.Notification.Manager.{send}
use twitter_clone.Notification.Consumer.{Round, consume, run}
use twitter_clone.Notification.Consumer.Delivery.{SentInOrder, consume-SentInOrder}
use twitter_clone.Client.Reading.{IsReadable, header}
use twitter_clone.Client.Feed.{Consumer, consume_type}
use twitter_clone.Client.Feed.Delivery.{shown, with_items}
use twitter_clone.Client.Feed.Offline.{offline_to_feed}
use twitter_clone.Examples.Notifications.{
  one_offline, hello, sender_known, offline_follower, list-Fresh,
}

abbrev two_rounds : List Round
two_rounds =
    record { before = hello ∷ []; wakeups = []; now = 1 }
    ∷ record { before = []; wakeups = record { timeout = true; new = hello ∷ [] } ∷ []; now = 2 }
    ∷ []

consume_example : SentInOrder two_rounds (hello ∷ []) (consume two_rounds (hello ∷ []))
consume_example = consume-SentInOrder two_rounds (hello ∷ [])

abbrev stored : Notification
stored = record hello { id = to_int 7; pending_count = pos 1 }

stored-IsReadable : IsReadable stored
stored-IsReadable = record {
  id_fits = omega arith;
  timestamp_fits = omega arith;
  name_visible = omega arith;
  name_some = λ e. cc;
  name_fits = omega arith;
  message_fits = omega arith;
}

stored_short : length (header stored) + 2 < size_mod
unfolding print print_int
stored_short = omega arith

abbrev new_client : Consumer
new_client = record {
  feed = record { width = 58; height = 12; items = []; showing_begin = 0 };
  label = [];
  should_reconnect = false;
}

offline_to_feed_example :
    (p : Packet) × (ps : List Packet) × ((run
        (λ m. m)
        (send one_offline hello (codes "@b" ∷ []))
        (codes "@b")
        3
        40
        two_rounds).0
      ≡ p ∷ ps)
    × (consume_type (λ t. codes "May") new_client p.type p.payload
        ≡ some (with_items (λ t. codes "May") new_client (shown (λ t. codes "May") stored ∷ [])))
offline_to_feed_example =
    offline_to_feed one_offline hello (codes "@b") 3 40 sender_known offline_follower refl
      list-Fresh refl stored-IsReadable stored_short (λ m. m)
      (record { before = hello ∷ []; wakeups = []; now = 1 })
      (record { before = []; wakeups = record { timeout = true; new = hello ∷ [] } ∷ []; now = 2 }
        ∷ [])
      (λ t. codes "May") new_client
