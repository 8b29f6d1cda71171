-- ===== src/Profile/Persistency.antt =====
-- src/server/profile/ProfilePersistency: the users in the file Users.db, one to a line: the name
-- and then the followers. The file can be opened for writing, which creates it if it is missing.
use twitter_clone.Prelude.{ℕ, ◌+◌, List, [], ◌∷◌, Option, none, some, Bytes, pos}
use twitter_clone.Prelude.Map.{Map, emplace}
use twitter_clone.Csv.{read_all, append, append_to_line}
use twitter_clone.Profile.{User, new_user, add_follower}

abbrev pub split_char : ℕ
split_char = b';'

unfoldable pub add_followers : User → List Bytes → User
add_followers u [] = u
add_followers u (f ∷ fs) = add_followers (add_follower u f).0 fs

-- The loop of readUsers. The code takes userRaw[0] of every row: none is a row without a column.
unfoldable pub read_rows : ℕ → List (List Bytes) → Map User → Option (Map User)
read_rows id [] users = some users
read_rows id ([] ∷ rows) users = none
read_rows id ((username ∷ followers) ∷ rows) users =
    read_rows (id + 1) rows
      (emplace username (add_followers (new_user (pos id) username) followers) users)

unfoldable pub read_users : Option Bytes → Option (Map User)
read_users file = read_rows 1 (read_all split_char file) []

-- CSVWriter::open: a missing file is created, empty.
unfoldable pub open_writer : Option Bytes → Option Bytes
open_writer none = some []
open_writer (some content) = some content

unfoldable pub save_new_user : Bytes → Option Bytes → Option Bytes
save_new_user user file = (append split_char (user ∷ []) (open_writer file)).0

unfoldable pub save_new_follower : Bytes → Bytes → Option Bytes → Option Bytes
save_new_follower user follower file =
    (append_to_line split_char 0 user (follower ∷ []) (open_writer file)).0
