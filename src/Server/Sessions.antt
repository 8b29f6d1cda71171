-- ===== src/Server/Sessions.antt =====
-- The sessions of a user before and after a connection.
use twitter_clone.Prelude.{
  ℕ, ◌<◌, ◌≡◌, ◌≢◌, refl, sym, ap, ◌∙◌, Bool, true, false, List, [], ◌∷◌, ◌++◌, some, arith, length,
  length-append, Bytes, pos, ◌&&◌, ltb_ℤ, ==_iff,
}
use twitter_clone.Prelude.Map.{Map, find}
use twitter_clone.Packet.{Packet}
use twitter_clone.Packet.Types.{login}
use twitter_clone.Profile.{User, Session, max_sessions_per_user}
use twitter_clone.Profile.Sessions.{Fresh, DistinctIds, others}
use twitter_clone.Profile.Manager.{ProfileManager, start_session}
use twitter_clone.Profile.Manager.Sessions.{
  sessions_at, start_session-sessions, close_session-sessions, others-concat,
}
use twitter_clone.Server.{
  Server, authorize_session, run, run_authorized, session_token, serve, start_serving, finish,
  is_login,
}
use twitter_clone.Server.Service.{serve-sessions}

-- With at most one session of another thread, there is nothing else to remove.
pub others-Fresh : (id : ℕ) (ss : List Session) → Fresh id ss → others id ss ≡ ss
others-Fresh id [] h = refl
others-Fresh id (s ∷ ss) h = ground (arith, others-Fresh id ss h.1)

pub Fresh-concat :
    (id : ℕ) (ss : List Session) (s : Session)
    → Fresh id ss
    → s.thread_id ≢ id
    → Fresh id (ss ++ s ∷ [])
Fresh-concat id [] s h k = (k, tt)
Fresh-concat id (t ∷ ss) s h k = (h.0, Fresh-concat id ss s h.1 k)

pub DistinctIds-concat :
    (ss : List Session) (s : Session)
    → DistinctIds ss
    → Fresh s.thread_id ss
    → DistinctIds (ss ++ s ∷ [])
DistinctIds-concat [] s d f = (tt, tt)
DistinctIds-concat (t ∷ ss) s d f =
    (Fresh-concat t.thread_id ss s d.0 (λ e. f.0 (sym e)), DistinctIds-concat ss s d.1 f.1)

token-started :
    (on_update : Map User → Bool) (now : ℕ) (username : Bytes) (id : ℕ) (r : ProfileManager × Bool)
    → r.1 ≡ true
    → session_token on_update now username id r ≡ (r.0, username, id)
token-started on_update now username id (m, true) e = refl
token-started on_update now username id (m, false) e = cc

module _ (on_update : Map User → Bool) (now : ℕ) where
  authorize-login :
      (m : ProfileManager) (id : ℕ) (p : Packet)
      → p.type ≡ login
      → ltb_ℤ (pos 0) p.length ≡ true
      → (start_session on_update m p.payload (record { thread_id = id; username = p.payload })).1
        ≡ true
      → authorize_session on_update now m id (some p) ≡ (
        (start_session on_update m p.payload (record { thread_id = id; username = p.payload })).0,
        p.payload,
        id,
      )
  unfolding authorize_session
  authorize-login m id p logs_in filled started =
      let ready : (ltb_ℤ (pos 0) p.length && is_login on_update now p.type) ≡ true =
        ap (λ t. ltb_ℤ (pos 0) p.length && is_login on_update now t) logs_in
        ∙ ap (λ b. b && true) filled in
      rw ready (token-started on_update now p.payload id _ started)

  -- A user with fewer than two sessions, whose threads are others than the connection's and differ
  -- from each other, has the same sessions when her connection has ended, whatever she requested.
  pub run_connection-sessions :
      (s : Server) (id : ℕ) (p : Packet) (requests : List Packet) (u : User)
      → p.type ≡ login
      → ltb_ℤ (pos 0) p.length ≡ true
      → find p.payload s.profiles.users ≡ some u
      → length u.sessions < max_sessions_per_user
      → DistinctIds u.sessions
      → Fresh id u.sessions
      → sessions_at p.payload (run on_update now s id (some p) requests).profiles ≡ some u.sessions
  unfolding run
  run_connection-sessions s id p requests u logs_in filled known few distinct fresh =
      let session : Session = record { thread_id = id; username = p.payload } in
      let (started, added) =
        start_session-sessions on_update s.profiles p.payload session u known few in
      let m = (start_session on_update s.profiles p.payload session).0 in
      let s' = start_serving on_update now s m in
      ap (λ r. sessions_at p.payload (run_authorized on_update now s id requests r).profiles)
        (authorize-login s.profiles id p logs_in filled started)
      ∙ rw ((==_iff id id).1 refl) (
          unfold finish in
          close_session-sessions (serve on_update now s' p.payload requests).profiles p.payload id
            (u.sessions ++ session ∷ [])
            (serve-sessions on_update now s' p.payload p.payload requests ∙ added)
            (omega (arith, length-append u.sessions (session ∷ []), few))
            (DistinctIds-concat u.sessions session distinct fresh))
      ∙ ap some (others-concat session u.sessions ∙ others-Fresh id u.sessions fresh)
