-- ===== src/Profile/Manager/Invariant.antt =====
-- What every method keeps of every user.
use twitter_clone.Prelude.{
  ℕ, ◌≡◌, refl, sym, subst, ◌∙◌, ◌≤◌, Bool, true, false, ◌&&◌, List, [], ◌∷◌, some, arith, Bytes,
  bytes_eq, bytes_eq_iff, ℤ, pos, length, inl, inr, Option-cases, Bool-cases,
}
use twitter_clone.Prelude.Map.{Map, find, has, emplace, assign}
use twitter_clone.Profile.{
  User, Session, new_user, add_follower, add_session, remove_session, without, back_id,
}
use twitter_clone.Profile.Followers.{FollowersIsValid, add_follower-IsValid, contains}
use twitter_clone.Profile.Sessions.{WithinLimit, add_session_lem}
use twitter_clone.Profile.Manager.{
  ProfileManager, follow, follow_found, start_session, start_new, close_session,
}
use twitter_clone.Profile.Manager.History.{Call, follows, starts, closes, step, run}

-- A user under her own name, with distinct followers other than herself, and at most two sessions.
pub record UserIsValid (name : Bytes) (u : User) : Type 0 where
  pub named : u.username ≡ name
  pub followers : FollowersIsValid u
  pub sessions : WithinLimit u

abbrev pub AllValid : Map User → Type 0
AllValid [] = Unit
AllValid ((name, u) ∷ users) = UserIsValid name u × AllValid users

pub find-IsValid :
    (k : Bytes) (users : Map User) (u : User)
    → AllValid users
    → find k users ≡ some u
    → UserIsValid k u
unfolding find
find-IsValid k [] u v e = absurd (cc)
find-IsValid k ((j, w) ∷ users) u v e = elim (Bool-cases (bytes_eq j k)) [
  | inl h ↦
      let same : w ≡ u = ground arith in
      subst (λ t. UserIsValid t u) ((bytes_eq_iff j k).0 h) (subst (λ x. UserIsValid j x) same v.0)
  | inr h ↦ find-IsValid k users u v.1 (ground arith)
]

assign-AllValid :
    (k : Bytes) (u : User) (users : Map User)
    → UserIsValid k u
    → AllValid users
    → AllValid (assign k u users)
unfolding assign
assign-AllValid k u [] w v = tt
assign-AllValid k u ((j, x) ∷ users) w v = elim (Bool-cases (bytes_eq j k)) [
  | inl h ↦ rw h (subst (λ t. UserIsValid t u) (sym ((bytes_eq_iff j k).0 h)) w, v.1)
  | inr h ↦ rw h (v.0, assign-AllValid k u users w v.1)
]

emplace-AllValid :
    (k : Bytes) (u : User) (users : Map User)
    → UserIsValid k u
    → AllValid users
    → AllValid (emplace k u users)
unfolding emplace
emplace-AllValid k u [] w v = (w, tt)
emplace-AllValid k u ((j, x) ∷ users) w v = elim (Bool-cases (bytes_eq j k)) [
  | inl h ↦ rw h v
  | inr h ↦ rw h (v.0, emplace-AllValid k u users w v.1)
]

pub add_follower-keeps :
    (u : User) (f : Bytes)
    → ((add_follower u f).0.username ≡ u.username) × ((add_follower u f).0.sessions ≡ u.sessions)
unfolding add_follower
add_follower-keeps u f = ground arith

add_follower-UserIsValid :
    (name : Bytes) (u : User) (f : Bytes)
    → UserIsValid name u
    → UserIsValid name (add_follower u f).0
add_follower-UserIsValid name u f v = record {
  named = (add_follower-keeps u f).0 ∙ v.named;
  followers = add_follower-IsValid u f v.followers;
  sessions = rw ((add_follower-keeps u f).1) v.sessions;
}

add_session-UserIsValid :
    (name : Bytes) (u : User) (s : Session)
    → UserIsValid name u
    → UserIsValid name (add_session u s).0
add_session-UserIsValid name u s v = record {
  named = unfold add_session in ground (arith, v.named);
  followers = record {
    distinct = unfold add_session in ground (arith, v.followers.distinct);
    not_self = unfold add_session in ground (arith, v.followers.not_self);
  };
  sessions = (add_session_lem u s v.sessions).0;
}

new_user-UserIsValid : (name : Bytes) (id : ℤ) → UserIsValid name (new_user id name)
unfolding new_user
new_user-UserIsValid name id = record {
  named = refl;
  followers = record { distinct = tt; not_self = unfold contains in refl };
  sessions = omega arith;
}

length-without-le : (id : ℕ) (ss : List Session) → length ss ≤ 2 → length (without id ss) ≤ 2
unfolding without back_id
length-without-le id [] h = omega arith
length-without-le id (s ∷ []) h = ground arith
length-without-le id (s ∷ t ∷ []) h = ground arith
length-without-le id (s ∷ t ∷ r ∷ ss) h = absurd (omega arith)

remove_session-UserIsValid :
    (name : Bytes) (u : User) (id : ℕ) → UserIsValid name u → UserIsValid name (remove_session u id)
unfolding remove_session
remove_session-UserIsValid name u id v = record {
  named = v.named;
  followers = record { distinct = v.followers.distinct; not_self = v.followers.not_self };
  sessions = length-without-le id u.sessions v.sessions;
}

module _ (on_update : Map User → Bool) where
  follow_found-AllValid :
      (m : ProfileManager) (follower name : Bytes) (r : User × Bool)
      → UserIsValid name r.0
      → AllValid m.users
      → AllValid (follow_found on_update m follower name r).0.users
  unfolding follow_found
  follow_found-AllValid m follower name (u, false) w v = assign-AllValid name u m.users w v
  follow_found-AllValid m follower name (u, true) w v = assign-AllValid name u m.users w v

  -- follow keeps every user valid, whether it succeeds or not.
  pub follow-AllValid :
      (m : ProfileManager) (follower name : Bytes)
      → AllValid m.users
      → AllValid (follow on_update m follower name).0.users
  unfolding follow
  follow-AllValid m follower name v = elim (Bool-cases (has follower m.users && has name m.users)) [
    | inr e ↦ rw e v
    | inl e ↦ rw e (elim (Option-cases (find name m.users)) [
      | inl missing ↦ rw missing v
      | inr (u, found) ↦ rw found (
          follow_found-AllValid m follower name (add_follower u follower)
            (add_follower-UserIsValid name u follower (find-IsValid name m.users u v found)) v)
    ])
  ]

  -- So does start_session, which may make a new user.
  pub start_session-AllValid :
      (m : ProfileManager) (name : Bytes) (s : Session)
      → AllValid m.users
      → AllValid (start_session on_update m name s).0.users
  unfolding start_session
  start_session-AllValid m name s v = elim (Option-cases (find name m.users)) [
    | inl missing ↦ rw missing (
        unfold start_new in
        emplace-AllValid name _ m.users
          (add_session-UserIsValid name _ s (new_user-UserIsValid name (pos (length m.users)))) v)
    | inr (u, found) ↦ rw found (
        assign-AllValid name _ m.users
          (add_session-UserIsValid name u s (find-IsValid name m.users u v found)) v)
  ]

-- And so does close_session.
pub close_session-AllValid :
    (m : ProfileManager) (name : Bytes) (id : ℕ)
    → AllValid m.users
    → AllValid (close_session m name id).users
unfolding close_session
close_session-AllValid m name id v = elim (Option-cases (find name m.users)) [
  | inl missing ↦ rw missing v
  | inr (u, found) ↦ rw found (
      assign-AllValid name _ m.users
        (remove_session-UserIsValid name u id (find-IsValid name m.users u v found)) v)
]

step-AllValid :
    (on_update : Map User → Bool) (m : ProfileManager) (c : Call)
    → AllValid m.users
    → AllValid (step on_update m c).users
unfolding step
step-AllValid on_update m (follows follower name) v = follow-AllValid on_update m follower name v
step-AllValid on_update m (starts name s) v = start_session-AllValid on_update m name s v
step-AllValid on_update m (closes name id) v = close_session-AllValid m name id v

-- After any history of logins, follows and logouts, every user stands under her own name, has
-- distinct followers other than herself, and has no more than two sessions, if that was so at its
-- start.
pub run-AllValid :
    (on_update : Map User → Bool) (m : ProfileManager) (cs : List Call)
    → AllValid m.users
    → AllValid (run on_update m cs).users
unfolding run
run-AllValid on_update m [] v = v
run-AllValid on_update m (c ∷ cs) v =
    run-AllValid on_update (step on_update m c) cs (step-AllValid on_update m c v)
