-- ===== src/Client/Commands.antt =====
-- src/client/app_client.cpp: names, commands and the login.
use twitter_clone.Prelude.{
  ℕ, ◌+◌, ◌≤◌, ◌≡◌, Bool, true, false, not, ◌&&◌, List, [], ◌∷◌, ◌++◌, Option, none, some, leb,
  ◌==◌, if◌then◌else◌, length, Bytes, codes, ◌⊎◌,
}
use twitter_clone.Text.{starts_with, remove_prefix}
use twitter_clone.Packet.{Packet, c_str}
use twitter_clone.Packet.Types.{PacketType, send, follow, login, success}

-- A packet that is sent: its type and its payload, which is handed over as a C string.
pub record Request : Type 0 where
  pub type : PacketType
  pub payload : Bytes

abbrev pub request : PacketType → Bytes → Request
request type text = record { type = type; payload = c_str text }

-- username[0], which is 0 at the end of the text.
abbrev pub first_byte : Bytes → ℕ
first_byte [] = 0
first_byte (c ∷ s) = c

-- MIN_SIZE_USERNAME and MAX_SIZE_USERNAME, and usernameIsValid.
abbrev pub min_size_username : ℕ
min_size_username = 4

abbrev pub max_size_username : ℕ
max_size_username = 20

unfoldable pub username_is_valid : Bytes → Bool
username_is_valid username =
    if not (first_byte username == b'@')
    then false
    else leb (min_size_username + 1) (length username)
      && leb (length username) (max_size_username + 1)

unfoldable pub handle_command : Bytes → Option Request
handle_command command =
    if starts_with (codes "SEND ") command
    then some (request send (remove_prefix command (codes "SEND ")))
    else if starts_with (codes "FOLLOW ") command
    then (let username = remove_prefix command (codes "FOLLOW ") in
        if username_is_valid username then some (request follow username) else none)
    else none

-- tryLogin: what is sent, and whether the login succeeded; none where the answer is lost and the
-- code follows a NULL pointer.
abbrev is_success : PacketType → Bool
is_success success = true
is_success _ = false

abbrev login_result : Option Packet → Option Bool
login_result none = none
login_result (some response) = some (is_success response.type)

unfoldable pub try_login : Bytes → Option Packet → List Request × Option Bool
try_login username answer =
    if username_is_valid username
    then (request login username ∷ [], login_result answer)
    else ([], some false)

-- A name begins with an at sign and has between 4 and 20 bytes behind it.
abbrev pub IsName : Bytes → Type 0
IsName username = (name : Bytes) × (username ≡ b'@' ∷ name) × (4 ≤ length name) × (length name ≤ 20)

-- A request that is one of the two commands.
abbrev pub IsCommand : Bytes → Request → Type 0
IsCommand command r =
    ((m : Bytes) × (command ≡ codes "SEND " ++ m) × (r ≡ request send m))
    ⊎ ((name : Bytes) × (command ≡ codes "FOLLOW " ++ name)
        × IsName name
        × (r ≡ request follow name))
