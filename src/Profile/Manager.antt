-- ===== src/Profile/Manager.antt =====
-- src/server/profile/ProfileManager: all users, under one mutex, so each method is one step. The
-- callback onUpdateCallback is an argument; its calls are kept in the order they were made.
pub mod Held
pub mod History
pub mod Invariant
pub mod Reload
pub mod Sessions
pub mod Stored
pub mod Storing
pub mod Wire
use twitter_clone.Prelude.{
  ℕ, suc, ◌+◌, Bool, true, false, not, ◌&&◌, List, [], ◌∷◌, ◌++◌, map, Option, none, some, ltb,
  if◌then◌else◌, length, is_empty, Bytes, codes, ℤ, pos,
}
use twitter_clone.Prelude.Map.{Map, find, has, emplace, assign, keys}
use twitter_clone.Text.{split, split_first}
use twitter_clone.Profile.{
  User, Session, new_user, blank_user, add_follower, add_session, remove_session, session_count,
  is_valid, serialize, deserialize, ◌>>=◌,
}
use twitter_clone.Profile.Persistency.{read_users, save_new_user, save_new_follower}

pub record ProfileManager : Type 0 where
  pub users : Map User
  -- The content of Users.db.
  pub file : Option Bytes
  -- What onUpdateCallback was called with.
  pub updates : List (Map User)

unfoldable pub load_users : ProfileManager → Option ProfileManager
load_users m = do users ← read_users m.file; some (record m { users = users })

unfoldable pub get_all_usernames : ProfileManager → List Bytes
get_all_usernames m = keys m.users

unfoldable pub user_exists : ProfileManager → Bytes → Bool
user_exists m username = has username m.users

abbrev followers_or_none : Option User → List Bytes
followers_or_none none = []
followers_or_none (some u) = u.followers

unfoldable pub followers_of : ProfileManager → Bytes → List Bytes
followers_of m username = followers_or_none (find username m.users)

abbrev count_or_zero : Option User → ℕ
count_or_zero none = 0
count_or_zero (some u) = session_count u

unfoldable pub active_session_count : ProfileManager → Bytes → ℕ
active_session_count m username = count_or_zero (find username m.users)

module _ (on_update : Map User → Bool) where
  -- The followed user with the outcome of addFollower.
  unfoldable pub follow_found : ProfileManager → Bytes → Bytes → User × Bool → ProfileManager × Bool
  follow_found m follower to_follow (u, false) =
      (record m { users = assign to_follow u m.users }, false)
  follow_found m follower to_follow (u, true) =
      let users = assign to_follow u m.users in
      (
        record {
          users = users;
          file = save_new_follower to_follow follower m.file;
          updates = m.updates ++ users ∷ [];
        },
        on_update users,
      )

  abbrev follow_user : ProfileManager → Bytes → Bytes → Option User → ProfileManager × Bool
  follow_user m follower to_follow none = (m, false)
  follow_user m follower to_follow (some u) =
      follow_found m follower to_follow (add_follower u follower)

  unfoldable pub follow : ProfileManager → Bytes → Bytes → ProfileManager × Bool
  follow m follower to_follow =
      if has follower m.users && has to_follow m.users
      then follow_user m follower to_follow (find to_follow m.users)
      else (m, false)

  unfoldable pub start_new : ProfileManager → Bytes → Session → ProfileManager × Bool
  start_new m username session =
      let user = (add_session (new_user (pos (length m.users)) username) session).0 in
      let users = emplace username user m.users in
      (
        record {
          users = users;
          file = save_new_user username m.file;
          updates = m.updates ++ users ∷ [];
        },
        on_update users,
      )

  abbrev pub start_user : ProfileManager → Bytes → Session → Option User → ProfileManager × Bool
  start_user m username session none = start_new m username session
  start_user m username session (some u) = (
    record m { users = assign username (add_session u session).0 m.users },
    (add_session u session).1,
  )

  unfoldable pub start_session : ProfileManager → Bytes → Session → ProfileManager × Bool
  start_session m username session = start_user m username session (find username m.users)

abbrev pub close_user : ProfileManager → Bytes → ℕ → Option User → ProfileManager
close_user m username id none = m
close_user m username id (some u) = record m {
  users = assign username (remove_session u id) m.users;
}

unfoldable pub close_session : ProfileManager → Bytes → ℕ → ProfileManager
close_session m username id = close_user m username id (find username m.users)

unfoldable pub update : ProfileManager → Map User → ProfileManager
update m users = record m { users = users }

unfoldable pub serialize_users : Map User → Bytes
serialize_users [] = []
serialize_users ((name, u) ∷ users) =
    (name ++ (codes " " ++ (serialize u ++ codes "\n"))) ++ serialize_users users

-- One line: the name, and behind the first blank the user, who is kept if valid.
unfoldable pub read_line : Map User → List Bytes → Option (Map User)
read_line users (name ∷ rest ∷ []) = do
  u ← deserialize blank_user rest
  some (if is_valid u then emplace name u users else users)
read_line users _ = some users

unfoldable pub read_lines : Map User → List Bytes → Option (Map User)
read_lines users [] = some users
read_lines users (line ∷ lines) =
    let skip = read_lines users lines in
    let keep = (do
      users' ← read_line users (split_first line (codes " "))
      read_lines users' lines) in
    if ltb 0 (length line) then keep else skip

-- deserialize; none where std::stoi throws.
unfoldable pub deserialize_users : Bytes → Option (Map User)
deserialize_users raw = do lines ← split raw (codes "\n"); read_lines [] lines
