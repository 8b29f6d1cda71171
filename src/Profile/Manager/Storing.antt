-- ===== src/Profile/Manager/Storing.antt =====
-- Every method keeps the file in step with the users in memory.
use twitter_clone.Prelude.{
  ℕ, ◌≡◌, ◌≢◌, refl, sym, ap, ◌∙◌, subst, Bool, true, false, ◌||◌, ◌&&◌, List, [], ◌∷◌, ◌++◌, map,
  none, some, arith, Bytes, bytes_eq, bytes_eq_iff, bytes_eq_comm, inl, inr, Bool-cases,
  Option-cases, All-append, pos, length,
}
use twitter_clone.Prelude.Map.{Map, find, has, has-find, assign}
use twitter_clone.Prelude.Distinct.{emplace-new}
use twitter_clone.Csv.{add_columns, has_at}
use twitter_clone.Profile.{User, Session, new_user, add_follower, add_session, remove_session}
use twitter_clone.Profile.Followers.{contains, contains-append, add_follower_lem}
use twitter_clone.Profile.Persistency.{save_new_user, save_new_follower}
use twitter_clone.Profile.Manager.{
  ProfileManager, follow, follow_found, start_session, start_new, close_session,
}
use twitter_clone.Profile.Manager.History.{Call, follows, starts, closes, step, run}
use twitter_clone.Profile.Manager.Invariant.{add_follower-keeps}
use twitter_clone.Profile.Manager.Stored.{
  IsWord, SameNames, Describes, Matches, stored, Matches-append, Matches-assign,
  save_new_user-stored, save_new_follower-stored,
}

-- The file holds a row for each user, with the followers that she has in memory.
abbrev pub IsStored : ProfileManager → Type 0
IsStored m = (rows : List (List Bytes)) × (m.file ≡ stored rows) × Matches rows m.users

find-IsWord :
    (rows : List (List Bytes)) (users : Map User) (name : Bytes) (u : User)
    → Matches rows users
    → find name users ≡ some u
    → IsWord name
unfolding find
find-IsWord [] [] name u v e = absurd cc
find-IsWord [] (_ ∷ _) name u v e = absurd v
find-IsWord (_ ∷ _) [] name u v e = absurd v
find-IsWord ([] ∷ rows) ((k, x) ∷ users) name u v e = absurd v.0
find-IsWord ((c ∷ names) ∷ rows) ((k, x) ∷ users) name u v e = elim (Bool-cases (bytes_eq k name)) [
  | inl h ↦ subst IsWord (v.0.0 ∙ (bytes_eq_iff k name).0 h) v.0.1
  | inr h ↦ find-IsWord rows users name u v.2 (ground arith)
]

map-same : (rows : List (List Bytes)) → map (λ r. r) rows ≡ rows
map-same [] = refl
map-same (r ∷ rows) = ap (λ t. r ∷ t) (map-same rows)

Describes-same :
    (name : Bytes) (u w : User)
    → w.username ≡ u.username
    → SameNames w.followers u.followers
    → (row : List Bytes) → Describes row name u
    → Describes row name w
Describes-same name u w same names [] d = absurd d
Describes-same name u w same names (c ∷ fs) d =
    (d.0, d.1, d.2, same ∙ d.3, λ x. names x ∙ d.4 x, names c ∙ d.5)

-- A user who keeps her name and her followers still has her row.
keep_row :
    (m : ProfileManager) (name : Bytes) (u w : User)
    → find name m.users ≡ some u
    → w.username ≡ u.username
    → SameNames w.followers u.followers
    → IsStored m
    → IsStored (record m { users = assign name w m.users })
keep_row m name u w e same names (rows, file, v) = (
  rows,
  file,
  subst (λ t. Matches t (assign name w m.users)) (map-same rows)
      (Matches-assign (λ r. r) name u w (Describes-same name u w same names) (λ row k x d h. refl)
        rows m.users v e),
)

module _ (u : User) (f name : Bytes) (ok : (add_follower u f).1 ≡ true) where
  follower_added :
      (x : Bytes)
      → contains (add_follower u f).0.followers x ≡ (contains u.followers x || bytes_eq f x)
  follower_added x = (add_follower_lem u f).1 x ∙ ground arith

  not_herself : bytes_eq f u.username ≡ false
  not_herself = ground (arith, (add_follower_lem u f).0, ok, bytes_eq_comm f u.username)

  add_columns-Describes :
      IsWord f
      → (row : List Bytes) → Describes row name u
      → Describes (add_columns 0 name (f ∷ []) row) name (add_follower u f).0
  unfolding add_columns has_at
  add_columns-Describes w [] d = absurd d
  add_columns-Describes w (c ∷ names) d = rw ((bytes_eq_iff c name).1 d.0) (
    d.0,
    d.1,
    All-append IsWord names (f ∷ []) d.2 (w, tt),
    (add_follower-keeps u f).0 ∙ d.3,
    λ x. follower_added x ∙ ap (λ b. b || bytes_eq f x) (d.4 x) ∙ sym (contains-append names f x),
    follower_added c ∙ ground (arith, d.5, ap (bytes_eq f) d.3, not_herself),
  )

add_columns-other :
    (name f : Bytes) (row : List Bytes) (k : Bytes) (x : User)
    → Describes row k x
    → bytes_eq k name ≡ false
    → add_columns 0 name (f ∷ []) row ≡ row
unfolding add_columns has_at
add_columns-other name f [] k x d e = absurd d
add_columns-other name f (c ∷ names) k x d e = rw (ap (λ t. bytes_eq t name) d.0 ∙ e) refl

nobody : (users : Map User) (name : Bytes) (u : User) → Matches [] users → find name users ≢ some u
unfolding find
nobody [] name u v = λ e. cc
nobody (_ ∷ _) name u v = absurd v

follow_found-IsStored :
    (on_update : Map User → Bool) (m : ProfileManager) (f name : Bytes) (u w : User) (ok : Bool)
    → add_follower u f ≡ (w, ok)
    → find name m.users ≡ some u
    → IsWord f
    → IsStored m
    → IsStored (follow_found on_update m f name (w, ok)).0
unfolding follow_found
follow_found-IsStored on_update m f name u w false e found word s =
    let lem = add_follower_lem u f in
    keep_row m name u w found (ap (λ r. r.0.username) (sym e) ∙ (add_follower-keeps u f).0)
      (λ x. ap (λ r. contains r.0.followers x) (sym e) ∙ lem.1 x ∙ ground (arith, ap (λ r. r.1) e))
      s
follow_found-IsStored on_update m f name u w true e found word ([], file, v) =
    absurd (nobody m.users name u v found)
follow_found-IsStored on_update m f name u w true e found word (row ∷ rows, file, v) =
    let ok : (add_follower u f).1 ≡ true = ap (λ r. r.1) e in
    (
      map (add_columns 0 name (f ∷ [])) (row ∷ rows),
      ap (save_new_follower name f) file ∙ save_new_follower-stored name f row rows m.users word v,
      subst
          (λ r. Matches (map (add_columns 0 name (f ∷ [])) (row ∷ rows)) (assign name r.0 m.users))
          e
          (Matches-assign (add_columns 0 name (f ∷ [])) name u (add_follower u f).0
            (add_columns-Describes u f name ok word) (add_columns-other name f) (row ∷ rows) m.users
            v found),
    )

pub follow-IsStored :
    (on_update : Map User → Bool) (m : ProfileManager) (f name : Bytes)
    → IsStored m
    → IsStored (follow on_update m f name).0
unfolding follow
follow-IsStored on_update m f name s = elim (Bool-cases (has f m.users && has name m.users)) [
  | inr e ↦ rw e s
  | inl e ↦
      let (x, follower_found) = has-find f m.users (ground arith) in
      let (u, found) = has-find name m.users (ground arith) in
      rw e (
        rw found (
          follow_found-IsStored on_update m f name u (add_follower u f).0 (add_follower u f).1 refl
            found (find-IsWord s.0 m.users f x s.2 follower_found) s))
]

add_session-same :
    (u : User) (s : Session)
    → ((add_session u s).0.username ≡ u.username) × ((add_session u s).0.followers ≡ u.followers)
unfolding add_session
add_session-same u s = ground arith

new_user-Describes :
    (name : Bytes) (id : ℕ) (s : Session)
    → IsWord name
    → Describes (name ∷ []) name (add_session (new_user (pos id) name) s).0
unfolding new_user add_session contains
new_user-Describes name id s w = (refl, w, tt, refl, λ x. refl, refl)

start_new-IsStored :
    (on_update : Map User → Bool) (m : ProfileManager) (name : Bytes) (s : Session)
    → IsWord name
    → find name m.users ≡ none
    → IsStored m
    → IsStored (start_new on_update m name s).0
unfolding start_new
start_new-IsStored on_update m name s w missing (rows, file, v) =
    let u = (add_session (new_user (pos (length m.users)) name) s).0 in
    (
      rows ++ (name ∷ []) ∷ [],
      ap (save_new_user name) file ∙ save_new_user-stored name rows m.users w v,
      subst (Matches (rows ++ (name ∷ []) ∷ [])) (sym (emplace-new name u m.users missing)) (
          Matches-append rows m.users (name ∷ []) name u v missing
            (new_user-Describes name (length m.users) s w)),
    )

pub start_session-IsStored :
    (on_update : Map User → Bool) (m : ProfileManager) (name : Bytes) (s : Session)
    → IsWord name
    → IsStored m
    → IsStored (start_session on_update m name s).0
unfolding start_session
start_session-IsStored on_update m name s w v = elim (Option-cases (find name m.users)) [
  | inl missing ↦ rw missing (start_new-IsStored on_update m name s w missing v)
  | inr (u, found) ↦ rw found (
      keep_row m name u (add_session u s).0 found (add_session-same u s).0
        (λ x. ap (λ l. contains l x) (add_session-same u s).1) v)
]

pub close_session-IsStored :
    (m : ProfileManager) (name : Bytes) (id : ℕ) → IsStored m → IsStored (close_session m name id)
unfolding close_session remove_session
close_session-IsStored m name id v = elim (Option-cases (find name m.users)) [
  | inl missing ↦ rw missing v
  | inr (u, found) ↦ rw found (keep_row m name u (remove_session u id) found refl (λ x. refl) v)
]

-- The names of the users that log in.
abbrev pub AllWords : List Call → Type 0
AllWords [] = Unit
AllWords (starts name s ∷ cs) = IsWord name × AllWords cs
AllWords (follows follower name ∷ cs) = AllWords cs
AllWords (closes name id ∷ cs) = AllWords cs

pub run-IsStored :
    (on_update : Map User → Bool) (m : ProfileManager) (cs : List Call)
    → AllWords cs
    → IsStored m
    → IsStored (run on_update m cs)
unfolding run step
run-IsStored on_update m [] w v = v
run-IsStored on_update m (follows f name ∷ cs) w v =
    run-IsStored on_update (follow on_update m f name).0 cs w (follow-IsStored on_update m f name v)
run-IsStored on_update m (starts name s ∷ cs) w v =
    run-IsStored on_update (start_session on_update m name s).0 cs w.1
      (start_session-IsStored on_update m name s w.0 v)
run-IsStored on_update m (closes name id ∷ cs) w v =
    run-IsStored on_update (close_session m name id) cs w (close_session-IsStored m name id v)
