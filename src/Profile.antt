-- ===== src/Profile.antt =====
-- src/server/profile: users with their followers and sessions. Thread ids are numbers.
pub mod Followers
pub mod Sessions
pub mod Wire
pub mod Persistency
pub mod Manager
use twitter_clone.Prelude.{
  ℕ, suc, ◌+◌, ◌<◌, ◌≤◌, Bool, true, false, not, ◌&&◌, List, [], ◌∷◌, ◌++◌, map, Option, none, some,
  ltb, leb, ◌==◌, if◌then◌else◌, length, is_empty, init, get_elem?, Bytes, bytes_eq, bytes_lt,
  codes, ℤ, pos, negsuc, ltb_ℤ,
}
use twitter_clone.Text.{split, join_string_list}
use twitter_clone.Numbers.{print, print_int, stoi}

pub record Session : Type 0 where
  pub thread_id : ℕ
  pub username : Bytes

pub record User : Type 0 where
  pub id : ℤ
  pub username : Bytes
  pub followers : List Bytes
  pub sessions : List Session

abbrev pub max_sessions_per_user : ℕ
max_sessions_per_user = 2

-- User(): what deserialize starts from.
unfoldable pub blank_user : User
blank_user = record { id = negsuc 0; username = []; followers = []; sessions = [] }

unfoldable pub new_user : ℤ → Bytes → User
new_user id username = record { id = id; username = username; followers = []; sessions = [] }

-- std::list::sort.
unfoldable pub insert_sorted : Bytes → List Bytes → List Bytes
insert_sorted x [] = x ∷ []
insert_sorted x (y ∷ ys) = if bytes_lt y x then y ∷ insert_sorted x ys else x ∷ y ∷ ys

unfoldable pub sort : List Bytes → List Bytes
sort [] = []
sort (x ∷ xs) = insert_sorted x (sort xs)

-- std::binary_search: the first element that is not less than the key is looked at.
unfoldable pub binary_search : List Bytes → Bytes → Bool
binary_search [] key = false
binary_search (x ∷ xs) key =
    let rest = binary_search xs key in if bytes_lt x key then rest else not (bytes_lt key x)

unfoldable pub add_follower : User → Bytes → User × Bool
add_follower u follower =
    if bytes_eq u.username follower
    then (u, false)
    else if binary_search (sort u.followers) follower
    then (record u { followers = sort u.followers }, false)
    else (record u { followers = sort u.followers ++ follower ∷ [] }, true)

unfoldable pub session_count : User → ℕ
session_count u = length u.sessions

unfoldable pub add_session : User → Session → User × Bool
add_session u s =
    if ltb (length u.sessions) max_sessions_per_user
    then (record u { sessions = u.sessions ++ s ∷ [] }, true)
    else (u, false)

-- The id of back(), where there is a session.
unfoldable pub back_id : Session → List Session → ℕ
back_id s [] = s.thread_id
back_id s (t ∷ ts) = back_id t ts

unfoldable pub without : ℕ → List Session → List Session
without id [] = []
without id (s ∷ ss) =
    if s.thread_id == id then ss else if back_id s ss == id then init (s ∷ ss) else s ∷ ss

unfoldable pub remove_session : User → ℕ → User
remove_session u id = record u { sessions = without id u.sessions }

unfoldable pub is_valid : User → Bool
is_valid u = ltb_ℤ (pos 0) u.id && ltb 0 (length u.username)

unfoldable pub serialize_session : Session → Bytes
serialize_session s = print s.thread_id ++ (codes " " ++ s.username)

-- The loop over the sessions, with the flag `first`.
unfoldable pub serialize_sessions : Bool → List Session → Bytes
serialize_sessions first [] = []
serialize_sessions first (s ∷ ss) =
    (if first then serialize_session s else codes "," ++ serialize_session s)
    ++ serialize_sessions false ss

unfoldable pub serialize : User → Bytes
serialize u =
    print_int u.id
    ++ (codes " "
        ++ (u.username
            ++ (codes " "
                ++ (print (length u.followers)
                    ++ (codes " "
                        ++ (join_string_list u.followers (codes ",")
                            ++ (codes " "
                                ++ (print (length u.sessions)
                                    ++ (codes " " ++ serialize_sessions true u.sessions)))))))))

infixl 5 ◌>>=◌
abbrev pub ◌>>=◌ {ℓ κ} : {A : Type ℓ} {B : Type κ} → Option A → (A → Option B) → Option B
none >>= f = none
some a >>= f = f a

-- The parts of the text behind the check for six of them. std::stoi throws (none) at a word that
-- is no number.
unfoldable pub deserialize_parts : User → List Bytes → Option User
deserialize_parts u (id ∷ username ∷ size ∷ followers ∷ _ ∷ _ ∷ _) = do
  id ← stoi id
  followers_size ← stoi size
  let v = record u { id = id; username = username }
  names ← split followers (codes ",")
  some (if ltb_ℤ (pos 0) followers_size then record v { followers = names } else v)
deserialize_parts u _ = some u

unfoldable pub deserialize : User → Bytes → Option User
deserialize u raw = do splits ← split raw (codes " "); deserialize_parts u splits
