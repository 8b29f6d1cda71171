-- ===== src/Client/Session.antt =====
-- src/client/app_client.cpp: the loop of main over the keys, with the reconnection. What connect, the
-- leader and the keyboard give is a part of each key; the thread that reads the connection is Feed.
use twitter_clone.Prelude.{
  ℕ, Bool, true, false, List, [], ◌∷◌, ◌++◌, map, Option, none, some, if◌then◌else◌, Bytes, codes,
  ℤ, pos, int_eq,
}
use twitter_clone.Packet.{Packet}
use twitter_clone.Providers.{Address, try_any}
use twitter_clone.Client.Commands.{Request, handle_command, try_login}
use twitter_clone.Client.Input.{TextInput, input, key_f1, text_or_empty}
use twitter_clone.Client.Feed.{NotificationList}
use twitter_clone.Client.Feed.Scrolling.{on_all, key_up, key_down}

pub record Session : Type 0 where
  pub username : Bytes
  pub connection : Option ℕ
  pub should_reconnect : Bool
  -- Whether there is a ConnectionConsumer.
  pub has_receiver : Bool
  pub label : Bytes
  pub feed : NotificationList
  pub text_input : TextInput
  -- What was sent, on each connection.
  pub sent : List (ℕ × Request)

-- A key of the loop, with what happens before the next one: the random number and the results of
-- connect, the answer to a LOGIN, and the keys that a command or the feed reads.
pub record Key : Type 0 where
  pub event : ℤ
  pub random : ℕ
  pub attempt : ℕ → Address → Option ℕ
  pub answer : Option Packet
  pub typed : List ℤ
  pub scrolled : List ℤ

-- The reconnection; none where the answer to the LOGIN is lost and the code follows a NULL pointer.
abbrev pub with_label : Bytes → Session → Session
with_label text s = record s { label = text; should_reconnect = false }

abbrev pub logged_in : Option Bool → Session → Option Session
logged_in none s = none
logged_in (some true) s =
    some (record (with_label (codes "Reconnected!") s) { has_receiver = true })
logged_in (some false) s = some (with_label (codes "Unable to reconnect.") s)

abbrev pub connected : Option ℕ → Option Packet → Session → Option Session
connected none answer s =
    some (with_label (codes "Unable to reconnect.") (record s { connection = none }))
connected (some k) answer s =
    let (requests, result) = try_login s.username answer in
    logged_in result (record s { connection = some k; sent = s.sent ++ map (λ r. (k, r)) requests })

unfoldable pub reconnect : Key → Session → Option Session
reconnect key s =
    connected (try_any key.attempt key.random) key.answer (record s { has_receiver = false })

-- A request is sent; none where there is no connection and the code follows a NULL pointer.
abbrev pub send_on : Option ℕ → Option Request → Session → Option Session
send_on conn none s = some s
send_on none (some r) s = none
send_on (some k) (some r) s = some (record s { sent = s.sent ++ (k, r) ∷ [] })

-- The keys end with Return or F1.
abbrev pub command : List ℤ → Session → Option Session
command keys s =
    let (text, box) = input s.text_input keys in
    send_on s.connection (handle_command (text_or_empty text)) (record s { text_input = box })

-- handleNotificationWindow: the keys up to F1, with KEY_UP and KEY_DOWN of ncurses.
abbrev pub key_code_up : ℤ
key_code_up = pos 259

abbrev pub key_code_down : ℤ
key_code_down = pos 258

unfoldable pub scroll : List ℤ → NotificationList → NotificationList
scroll [] l = l
scroll (k ∷ ks) l =
    let up = scroll ks (on_all l (key_up ∷ [])) in
    let down = scroll ks (on_all l (key_down ∷ [])) in
    let same = scroll ks l in
    if int_eq k key_f1
    then l
    else if int_eq k key_code_up
    then up
    else if int_eq k key_code_down
    then down
    else same

abbrev pub act : Key → Session → Option Session
act key s =
    if int_eq key.event (pos b'c')
    then command key.typed s
    else if int_eq key.event (pos b'n')
    then some (record s { feed = scroll key.scrolled s.feed })
    else some s

abbrev pub act_after : Key → Option Session → Option Session
act_after key none = none
act_after key (some s) = act key s

unfoldable pub on_key : Key → Session → Option Session
on_key key s = act_after key (if s.should_reconnect then reconnect key s else some s)

-- The loop, which ends with F1.
abbrev pub run_after : (Session → Option Session) → Option Session → Option Session
run_after rest none = none
run_after rest (some s) = rest s

unfoldable pub run : List Key → Session → Option Session
run [] s = some s
run (key ∷ keys) s =
    let more = run_after (λ s'. run keys s') (on_key key s) in
    if int_eq key.event key_f1 then some s else more

-- What a command sends on a connection.
abbrev pub requests : ℕ → Option Request → List (ℕ × Request)
requests k none = []
requests k (some r) = (k, r) ∷ []
