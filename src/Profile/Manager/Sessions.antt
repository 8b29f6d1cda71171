-- ===== src/Profile/Manager/Sessions.antt =====
-- What the operations of the manager do to the sessions of each user.
use twitter_clone.Prelude.{
  ℕ, ◌≤◌, ◌<◌, ◌≡◌, refl, sym, subst, ap, ◌∙◌, Bool, true, false, ◌&&◌, List, [], ◌∷◌, ◌++◌, Option,
  none, some, arith, length, Bytes, bytes_eq, bytes_eq_iff, lt→ltb, Bool-cases, Option-cases, inl,
  inr,
}
use twitter_clone.Prelude.Map.{
  Map, find, has, assign, find-assign, find-assign_self, find-assign_ne,
}
use twitter_clone.Profile.{
  User, Session, add_follower, add_session, remove_session, max_sessions_per_user,
}
use twitter_clone.Profile.Sessions.{DistinctIds, others, remove_session_lem}
use twitter_clone.Profile.Manager.{
  ProfileManager, follow, follow_found, start_session, close_session,
}

abbrev pub sessions_or_none : Option User → Option (List Session)
sessions_or_none none = none
sessions_or_none (some u) = some u.sessions

-- The sessions of a user who is there.
abbrev pub sessions_at : Bytes → ProfileManager → Option (List Session)
sessions_at name m = sessions_or_none (find name m.users)

assign-sessions :
    (k name : Bytes) (u u' : User) (users : Map User)
    → find k users ≡ some u
    → u'.sessions ≡ u.sessions
    → sessions_or_none (find name (assign k u' users)) ≡ sessions_or_none (find name users)
assign-sessions k name u u' users found same = elim (Bool-cases (bytes_eq k name)) [
  | inl e ↦
      let here : find name users ≡ some u =
        subst (λ z. find z users ≡ some u) ((bytes_eq_iff k name).0 e) found in
      ap sessions_or_none (find-assign k name u' users) ∙ rw (e, here) (ap some same)
  | inr e ↦ ap sessions_or_none (find-assign_ne k name u' users e)
]

add_follower-sessions : (u : User) (f : Bytes) → (add_follower u f).0.sessions ≡ u.sessions
unfolding add_follower
add_follower-sessions u f = ground arith

module _ (on_update : Map User → Bool) where
  follow_found-sessions :
      (m : ProfileManager) (f k name : Bytes) (u : User) (r : User × Bool)
      → find k m.users ≡ some u
      → r.0.sessions ≡ u.sessions
      → sessions_at name (follow_found on_update m f k r).0 ≡ sessions_at name m
  unfolding follow_found
  follow_found-sessions m f k name u (u', true) found same =
      assign-sessions k name u u' m.users found same
  follow_found-sessions m f k name u (u', false) found same =
      assign-sessions k name u u' m.users found same

  -- Following changes no one's sessions.
  pub follow-sessions :
      (m : ProfileManager) (f k name : Bytes)
      → sessions_at name (follow on_update m f k).0 ≡ sessions_at name m
  unfolding follow
  follow-sessions m f k name = elim (Bool-cases (has f m.users && has k m.users)) [
    | inr e ↦ rw e refl
    | inl e ↦ elim (Option-cases (find k m.users)) [
      | inl missing ↦ rw (e, missing) refl
      | inr (u, found) ↦
          rw (e, found)
            (follow_found-sessions m f k name u (add_follower u f) found
              (add_follower-sessions u f))
    ]
  ]

  pub start_session-sessions :
      (m : ProfileManager) (name : Bytes) (s : Session) (u : User)
      → find name m.users ≡ some u
      → length u.sessions < max_sessions_per_user
      → ((start_session on_update m name s).1 ≡ true)
        × (sessions_at name (start_session on_update m name s).0 ≡ some (u.sessions ++ s ∷ []))
  unfolding start_session add_session
  start_session-sessions m name s u found few =
      rw (found, lt→ltb (length u.sessions) max_sessions_per_user few)
        (refl, ap sessions_or_none (find-assign_self name _ u m.users found))

pub others-concat :
    (s : Session) (ss : List Session) → others s.thread_id (ss ++ s ∷ []) ≡ others s.thread_id ss
others-concat s [] = ground arith
others-concat s (t ∷ ss) = ground (arith, others-concat s ss)

abbrev pub list_or_empty : Option (List Session) → List Session
list_or_empty none = []
list_or_empty (some ss) = ss

none-some : {ss : List Session} → none ≡ some ss → ⊥
none-some e = cc

pub close_session-sessions :
    (m : ProfileManager) (name : Bytes) (id : ℕ) (ss : List Session)
    → sessions_at name m ≡ some ss
    → length ss ≤ max_sessions_per_user
    → DistinctIds ss
    → sessions_at name (close_session m name id) ≡ some (others id ss)
unfolding close_session
close_session-sessions m name id ss e few d = elim (Option-cases (find name m.users)) [
  | inl missing ↦ absurd (none-some (sym (ap sessions_or_none missing) ∙ e))
  | inr (u, found) ↦
      let same : u.sessions ≡ ss = ap list_or_empty (sym (ap sessions_or_none found) ∙ e) in
      rw found (
        ap sessions_or_none (find-assign_self name (remove_session u id) u m.users found)
        ∙ ap some (
            remove_session_lem u id (subst (λ l. length l ≤ max_sessions_per_user) (sym same) few)
              (subst DistinctIds (sym same) d)
            ∙ ap (others id) same))
]
