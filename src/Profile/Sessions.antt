-- ===== src/Profile/Sessions.antt =====
-- Sessions: the limit for each user, and what closing one does.
use twitter_clone.Prelude.{
  ℕ, ◌≤◌, ◌≡◌, ◌≢◌, refl, true, false, List, [], ◌∷◌, ◌++◌, arith, length, length-append, ◌==◌,
  if◌then◌else◌, ◌⊎◌,
}
use twitter_clone.Profile.{
  Session, User, max_sessions_per_user, add_session, remove_session, without, back_id,
}

abbrev pub WithinLimit : User → Type 0
WithinLimit u = length u.sessions ≤ max_sessions_per_user

-- A session is added exactly if the user has fewer than two, at the end of the list; otherwise
-- nothing changes. The limit holds afterwards.
pub add_session_lem :
    (u : User) (s : Session)
    → WithinLimit u
    → WithinLimit (add_session u s).0
      × (((add_session u s).1 ≡ true) × ((add_session u s).0.sessions ≡ u.sessions ++ s ∷ [])
          ⊎ ((add_session u s).1 ≡ false)
            × ((add_session u s).0 ≡ u)
            × (length u.sessions ≡ max_sessions_per_user))
unfolding add_session
add_session_lem u s h = ground (arith, length-append u.sessions (s ∷ []))

-- The sessions that are not of the thread.
abbrev pub others : ℕ → List Session → List Session
others id [] = []
others id (s ∷ ss) = if s.thread_id == id then others id ss else s ∷ others id ss

-- The thread ids of different sessions differ.
abbrev pub Fresh : ℕ → List Session → Type 0
Fresh id [] = Unit
Fresh id (s ∷ ss) = (s.thread_id ≢ id) × Fresh id ss

abbrev pub DistinctIds : List Session → Type 0
DistinctIds [] = Unit
DistinctIds (s ∷ ss) = Fresh s.thread_id ss × DistinctIds ss

without-others :
    (id : ℕ) (ss : List Session)
    → length ss ≤ max_sessions_per_user
    → DistinctIds ss
    → without id ss ≡ others id ss
unfolding without back_id
without-others id [] h d = refl
without-others id (s ∷ []) h d = ground arith
without-others id (s ∷ t ∷ []) h d = ground arith
without-others id (s ∷ t ∷ r ∷ ss) h d = absurd (omega arith)

-- A user within the limit has only a first and a last session, so looking at the two ends is
-- enough: closing removes exactly the session of the thread.
pub remove_session_lem :
    (u : User) (id : ℕ)
    → WithinLimit u
    → DistinctIds u.sessions
    → (remove_session u id).sessions ≡ others id u.sessions
unfolding remove_session
remove_session_lem u id h d = without-others id u.sessions h d
