-- ===== src/Profile/Manager/Held.antt =====
-- The sessions of every name, also of one that no user has, before and after a login and a logout.
use twitter_clone.Prelude.{
  ℕ, ◌≤◌, ◌≡◌, refl, sym, subst, ap, ◌∙◌, Bool, true, false, List, [], ◌∷◌, ◌++◌, Option, none,
  some, length, Bytes, bytes_eq, bytes_eq_iff, Bool-cases, Option-cases, inl, inr, ◌⊎◌,
  if◌then◌else◌, ltb,
}
use twitter_clone.Prelude.Map.{
  Map, find, assign, emplace, find-emplace, find-assign, find-assign_ne,
}
use twitter_clone.Profile.{
  User, Session, new_user, add_session, remove_session, max_sessions_per_user,
}
use twitter_clone.Profile.Sessions.{DistinctIds, others, remove_session_lem}
use twitter_clone.Profile.Manager.{
  ProfileManager, start_session, start_new, start_user, close_session, close_user,
}
use twitter_clone.Profile.Manager.Sessions.{sessions_or_none, sessions_at, list_or_empty}

abbrev pub held : Bytes → ProfileManager → List Session
held name m = list_or_empty (sessions_at name m)

abbrev held_by : Option User → List Session
held_by o = list_or_empty (sessions_or_none o)

-- The sessions of `j`, where those of `name` become `ss`.
abbrev pub changed_at : Bytes → List Session → Bytes → ProfileManager → List Session
changed_at name ss j m = if bytes_eq name j then ss else held j m

assign-held :
    (m : ProfileManager) (name : Bytes) (u u' : User) (j : Bytes)
    → find name m.users ≡ some u
    → held_by (find j (assign name u' m.users)) ≡ changed_at name u'.sessions j m
assign-held m name u u' j found = elim (Bool-cases (bytes_eq name j)) [
  | inl e ↦
      let here : find j m.users ≡ some u =
        subst (λ z. find z m.users ≡ some u) ((bytes_eq_iff name j).0 e) found in
      ap held_by (find-assign name j u' m.users) ∙ rw (e, here) refl
  | inr e ↦ ap held_by (find-assign_ne name j u' m.users e) ∙ rw e refl
]

emplace-held :
    (m : ProfileManager) (name : Bytes) (u : User) (j : Bytes)
    → find name m.users ≡ none
    → held_by (find j (emplace name u m.users)) ≡ changed_at name u.sessions j m
emplace-held m name u j missing = elim (Bool-cases (bytes_eq name j)) [
  | inl e ↦
      let here : find j m.users ≡ none =
        subst (λ z. find z m.users ≡ none) ((bytes_eq_iff name j).0 e) missing in
      ap held_by (find-emplace name j u m.users) ∙ rw (e, here) refl
  | inr e ↦ ap held_by (find-emplace name j u m.users) ∙ rw e refl
]

changed_same :
    (m : ProfileManager) (name : Bytes) (ss : List Session) (j : Bytes)
    → held name m ≡ ss
    → changed_at name ss j m ≡ held j m
changed_same m name ss j e = elim (Bool-cases (bytes_eq name j)) [
  | inl h ↦ rw h (sym e ∙ ap (λ k. held k m) ((bytes_eq_iff name j).0 h))
  | inr h ↦ rw h refl
]

-- A login either adds the session behind the others of its user, or changes no one's sessions.
abbrev pub Started : ProfileManager → Bytes → Session → ProfileManager × Bool → Type 0
Started m name s r =
    ((r.1 ≡ true) × ((j : Bytes) → held j r.0 ≡ changed_at name (held name m ++ s ∷ []) j m))
    ⊎ ((r.1 ≡ false) × ((j : Bytes) → held j r.0 ≡ held j m))

module _ (on_update : Map User → Bool) (agrees : (users : Map User) → on_update users ≡ true) where
  start_known :
      (m : ProfileManager) (name : Bytes) (s : Session) (u : User)
      → find name m.users ≡ some u
      → Started m name s (start_user on_update m name s (some u))
  unfolding add_session
  start_known m name s u found = elim (Bool-cases (ltb (length u.sessions) max_sessions_per_user)) [
    | inl e ↦ rw e (
        inl (
          refl,
          λ j.
              assign-held m name u (record u { sessions = u.sessions ++ s ∷ [] }) j found
              ∙ ap (λ o. changed_at name (held_by o ++ s ∷ []) j m) (sym found),
        ))
    | inr e ↦ rw e (
        inr (
          refl,
          λ j. assign-held m name u u j found ∙ changed_same m name u.sessions j (ap held_by found),
        ))
  ]

  pub start_session-held :
      (m : ProfileManager) (name : Bytes) (s : Session)
      → Started m name s (start_session on_update m name s)
  unfolding start_session
  start_session-held m name s = elim (Option-cases (find name m.users)) [
    | inl missing ↦ rw missing (
        unfold start_new in
        unfold add_session in
        unfold new_user in inl (agrees _, λ j. emplace-held m name _ j missing))
    | inr (u, found) ↦
        subst (λ o. Started m name s (start_user on_update m name s o)) (sym found)
          (start_known m name s u found)
  ]

pub close_session-held :
    (m : ProfileManager) (name : Bytes) (id : ℕ) (j : Bytes)
    → length (held name m) ≤ max_sessions_per_user
    → DistinctIds (held name m)
    → held j (close_session m name id) ≡ changed_at name (others id (held name m)) j m
unfolding close_session
close_session-held m name id j few d = elim (Option-cases (find name m.users)) [
  | inl missing ↦ rw missing (sym (changed_same m name [] j (ap held_by missing)))
  | inr (u, found) ↦
      let same : u.sessions ≡ held name m = sym (ap held_by found) in
      ap (λ o. held j (close_user m name id o)) found
      ∙ assign-held m name u (remove_session u id) j found
      ∙ ap (λ ss. changed_at name ss j m)
          (remove_session_lem u id (subst (λ l. length l ≤ max_sessions_per_user) (sym same) few)
              (subst DistinctIds (sym same) d)
            ∙ ap (others id) same)
]
