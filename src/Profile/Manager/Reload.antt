-- ===== src/Profile/Manager/Reload.antt =====
-- The users that a server reads from the file when it starts again.
use twitter_clone.Prelude.{
  ℕ, ◌+◌, ◌≡◌, refl, sym, ap, ◌∙◌, Bool, true, false, ◌||◌, List, [], ◌∷◌, ◌++◌, none, some, arith,
  Bytes, bytes_eq, bytes_eq_iff, bytes_eq_comm, append-nil, append_assoc, pos,
}
use twitter_clone.Prelude.Map.{Map, find}
use twitter_clone.Prelude.Distinct.{emplace-new, NewTo, NewTo-concat, NewTo-empty}
use twitter_clone.Csv.{read_all}
use twitter_clone.Csv.Reading.{read_all-write_rows}
use twitter_clone.Profile.{◌>>=◌, User, new_user, add_follower}
use twitter_clone.Profile.Followers.{contains, add_follower_lem}
use twitter_clone.Profile.Persistency.{split_char, add_followers, read_rows, read_users}
use twitter_clone.Profile.Manager.{ProfileManager, load_users}
use twitter_clone.Profile.Manager.History.{Call, run}
use twitter_clone.Profile.Manager.Invariant.{add_follower-keeps}
use twitter_clone.Profile.Manager.Stored.{SameNames, Matches, Matches-IsTable, stored}
use twitter_clone.Profile.Manager.Storing.{IsStored, AllWords, run-IsStored}

-- The same users in the same order, with the same followers; those on the right have ids from `n`
-- on and no session.
abbrev pub Reloaded : ℕ → Map User → Map User → Type 0
Reloaded n [] [] = Unit
Reloaded n [] (_ ∷ _) = ⊥
Reloaded n (_ ∷ _) [] = ⊥
Reloaded n ((name, u) ∷ users) ((key, v) ∷ others) =
    (key ≡ name)
    × (v.id ≡ pos n)
    × (v.username ≡ u.username)
    × SameNames v.followers u.followers
    × (v.sessions ≡ [])
    × Reloaded (n + 1) users others

abbrev loaded : ℕ → List (List Bytes) → Map User
loaded n [] = []
loaded n ([] ∷ rows) = loaded (n + 1) rows
loaded n ((name ∷ names) ∷ rows) =
    (name, add_followers (new_user (pos n) name) names) ∷ loaded (n + 1) rows

add_follower-id : (u : User) (f : Bytes) → (add_follower u f).0.id ≡ u.id
unfolding add_follower
add_follower-id u f = ground arith

add_followers-keeps :
    (names : List Bytes) (u : User)
    → ((add_followers u names).id ≡ u.id)
      × ((add_followers u names).username ≡ u.username)
      × ((add_followers u names).sessions ≡ u.sessions)
unfolding add_followers
add_followers-keeps [] u = (refl, refl, refl)
add_followers-keeps (f ∷ names) u =
    let (id, name, sessions) = add_followers-keeps names (add_follower u f).0 in
    (
      id ∙ add_follower-id u f,
      name ∙ (add_follower-keeps u f).0,
      sessions ∙ (add_follower-keeps u f).1,
    )

same_name :
    (f x : Bytes) (names : List Bytes) → bytes_eq f x ≡ true → contains names f ≡ contains names x
same_name f x names e = ap (contains names) ((bytes_eq_iff f x).0 e)

-- Names other than the user's own are all added.
contains-add_followers :
    (names : List Bytes) (u : User)
    → contains names u.username ≡ false
    → (x : Bytes)
    → contains (add_followers u names).followers x ≡ (contains u.followers x || contains names x)
unfolding add_followers contains
contains-add_followers [] u h x = ground arith
contains-add_followers (f ∷ names) u h x =
    let u' = (add_follower u f).0 in
    contains-add_followers names u' (ap (contains names) (add_follower-keeps u f).0 ∙ ground arith)
      x
    ∙ ground (
      arith,
      (add_follower_lem u f).0,
      (add_follower_lem u f).1 x,
      same_name f x u.followers,
      bytes_eq_comm f u.username,
      h,
    )

read_rows-Matches :
    (n : ℕ) (rows : List (List Bytes)) (users acc : Map User)
    → Matches rows users
    → NewTo acc users
    → read_rows n rows acc ≡ some (acc ++ loaded n rows)
unfolding read_rows
read_rows-Matches n [] [] acc v new = ap some (sym (append-nil acc))
read_rows-Matches n [] (_ ∷ _) acc v new = absurd v
read_rows-Matches n (_ ∷ _) [] acc v new = absurd v
read_rows-Matches n ([] ∷ rows) ((k, u) ∷ users) acc v new = absurd v.0
read_rows-Matches n ((name ∷ names) ∷ rows) ((k, u) ∷ users) acc v new =
    let u' = add_followers (new_user (pos n) name) names in
    ap (read_rows (n + 1) rows) (emplace-new name u' acc (ap (λ t. find t acc) v.0.0 ∙ new.0))
    ∙ read_rows-Matches (n + 1) rows users (acc ++ (name, u') ∷ []) v.2
        (NewTo-concat name u' acc users new.1 (ap (λ t. find t users) v.0.0 ∙ v.1))
    ∙ ap some (append_assoc acc ((name, u') ∷ []) (loaded (n + 1) rows))

loaded-Reloaded :
    (n : ℕ) (rows : List (List Bytes)) (users : Map User)
    → Matches rows users
    → Reloaded n users (loaded n rows)
unfolding new_user
loaded-Reloaded n [] [] v = tt
loaded-Reloaded n [] (_ ∷ _) v = absurd v
loaded-Reloaded n (_ ∷ _) [] v = absurd v
loaded-Reloaded n ([] ∷ rows) ((k, u) ∷ users) v = absurd v.0
loaded-Reloaded n ((name ∷ names) ∷ rows) ((k, u) ∷ users) v =
    let (id, same, sessions) = add_followers-keeps names (new_user (pos n) name) in
    (
      v.0.0,
      id,
      same ∙ sym v.0.3,
      λ x.
          contains-add_followers names (new_user (pos n) name) (sym (v.0.4 name) ∙ v.0.5) x
          ∙ unfold contains in sym (v.0.4 x),
      sessions,
      loaded-Reloaded (n + 1) rows users v.2,
    )

loaded-new :
    (n : ℕ) (rows : List (List Bytes)) (users : Map User) (name : Bytes)
    → Matches rows users
    → find name users ≡ none
    → find name (loaded n rows) ≡ none
unfolding find
loaded-new n [] [] name v h = refl
loaded-new n [] (_ ∷ _) name v h = absurd v
loaded-new n (_ ∷ _) [] name v h = absurd v
loaded-new n ([] ∷ rows) ((k, u) ∷ users) name v h = absurd v.0
loaded-new n ((c ∷ names) ∷ rows) ((k, u) ∷ users) name v h =
    ground (arith, loaded-new (n + 1) rows users name v.2, ap (λ t. bytes_eq t name) v.0.0)

-- The file also stands for the users that were read from it.
loaded-Matches :
    (n : ℕ) (rows : List (List Bytes)) (users : Map User)
    → Matches rows users
    → Matches rows (loaded n rows)
unfolding new_user
loaded-Matches n [] [] v = tt
loaded-Matches n [] (_ ∷ _) v = absurd v
loaded-Matches n (_ ∷ _) [] v = absurd v
loaded-Matches n ([] ∷ rows) ((k, u) ∷ users) v = absurd v.0
loaded-Matches n ((c ∷ names) ∷ rows) ((k, u) ∷ users) v =
    let found = contains-add_followers names (new_user (pos n) c) (sym (v.0.4 c) ∙ v.0.5) in
    (
      (
        refl,
        v.0.1,
        v.0.2,
        (add_followers-keeps names (new_user (pos n) c)).1,
        λ x. found x ∙ unfold contains in refl,
        found c ∙ unfold contains in (sym (v.0.4 c) ∙ v.0.5),
      ),
      loaded-new (n + 1) rows users c v.2 (ap (λ t. find t users) v.0.0 ∙ v.1),
      loaded-Matches (n + 1) rows users v.2,
    )

read_users-stored :
    (rows : List (List Bytes)) (users : Map User)
    → Matches rows users
    → read_users (stored rows) ≡ some (loaded 1 rows)
unfolding read_users
read_users-stored [] users v = unfold read_all in unfold read_rows in refl
read_users-stored (row ∷ rows) users v =
    ap (λ t. read_rows 1 t [])
      (read_all-write_rows split_char (row ∷ rows) (Matches-IsTable row rows users v))
    ∙ read_rows-Matches 1 (row ∷ rows) users [] v (NewTo-empty users)

load_users-stored :
    (m : ProfileManager) (rows : List (List Bytes))
    → m.file ≡ stored rows
    → Matches rows m.users
    → load_users m ≡ some (record m { users = loaded 1 rows })
unfolding load_users
load_users-stored m rows file v =
    ap (λ o. o >>= (λ users. some (record m { users = users })))
      (ap read_users file ∙ read_users-stored rows m.users v)

-- After any history of logins, follows and logouts, a server that starts again and reads the file
-- has the same users in the same order, each with the same followers, numbered from 1 and without
-- sessions. The file stood for the users at the start, as a missing file does for none, and the
-- names that log in are not empty and contain no semicolon and no newline.
pub load_users-run :
    (on_update : Map User → Bool) (m : ProfileManager) (cs : List Call)
    → IsStored m
    → AllWords cs
    → (m' : ProfileManager) × (load_users (run on_update m cs) ≡ some m')
      × Reloaded 1 (run on_update m cs).users m'.users
      × IsStored m'
load_users-run on_update m cs s w =
    let m₁ = run on_update m cs in
    let (rows, file, v) = run-IsStored on_update m cs w s in
    (
      record m₁ { users = loaded 1 rows },
      load_users-stored m₁ rows file v,
      loaded-Reloaded 1 rows m₁.users v,
      (rows, file, loaded-Matches 1 rows m₁.users v),
    )
