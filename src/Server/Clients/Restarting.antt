-- ===== src/Server/Clients/Restarting.antt =====
-- The file after any interleaving of the connections.
use twitter_clone.Prelude.{
  ℕ, ◌≡◌, Bool, true, false, List, [], ◌∷◌, Option, none, some, Bytes, Bool-cases, inl, inr, ◌==◌,
  ◌&&◌, ltb_ℤ, pos,
}
use twitter_clone.Prelude.Map.{Map}
use twitter_clone.Packet.{Packet}
use twitter_clone.Packet.Types.{
  PacketType, close, send, follow, ack, answer, is_alive, server_down, new_replica, replicas,
  new_leader, election, coordinator, update_profile, update_notification, data_type, success, error,
  no_type, login,
}
use twitter_clone.Profile.{User, Session}
use twitter_clone.Profile.Manager.{ProfileManager, start_session, load_users}
use twitter_clone.Profile.Manager.History.{run}
use twitter_clone.Profile.Manager.Stored.{IsWord}
use twitter_clone.Profile.Manager.Storing.{
  IsStored, follow-IsStored, start_session-IsStored, close_session-IsStored,
}
use twitter_clone.Profile.Manager.Reload.{Reloaded, load_users-run}
use twitter_clone.Server.{authorize_session, session_token, is_login}
use twitter_clone.Server.Clients.{
  Stage, idle, publishing, leaving, Client, Service, Move, connects, receives, publishes, closes,
  client_at, admit, take, receive_at, publish_at, close_at, with_client, move, run_moves,
}

-- The names in the first packets are not empty and contain no semicolon and no newline.
abbrev pub LoginsFit : List Move → Type 0
LoginsFit [] = Unit
LoginsFit (connects id now none ∷ xs) = LoginsFit xs
LoginsFit (connects id now (some p) ∷ xs) = IsWord p.payload × LoginsFit xs
LoginsFit (receives id now p ∷ xs) = LoginsFit xs
LoginsFit (publishes id now ∷ xs) = LoginsFit xs
LoginsFit (closes id ∷ xs) = LoginsFit xs

module _ (on_update : Map User → Bool) where
  admit-IsStored :
      (s : Service) (id : ℕ) (r : ProfileManager × Bytes × ℕ)
      → IsStored r.0
      → IsStored (admit on_update s id r).profiles
  admit-IsStored s id (m, username, token) v = elim (Bool-cases (token == id)) [
    | inl e ↦ rw e v
    | inr e ↦ rw e v
  ]

  session_token-IsStored :
      (now id : ℕ) (name : Bytes) (r : ProfileManager × Bool)
      → IsStored r.0
      → IsStored (session_token on_update now name id r).0
  session_token-IsStored now id name (m, true) v = v
  session_token-IsStored now id name (m, false) v = v

  authorize-IsStored :
      (now id : ℕ) (m : ProfileManager) (p : Packet)
      → IsWord p.payload
      → IsStored m
      → IsStored (authorize_session on_update now m id (some p)).0
  unfolding authorize_session
  authorize-IsStored now id m p w v =
      let session : Session = record { thread_id = id; username = p.payload } in
      elim (Bool-cases (ltb_ℤ (pos 0) p.length && is_login on_update now p.type)) [
        | inl e ↦ rw e (
            session_token-IsStored now id p.payload (start_session on_update m p.payload session)
              (start_session-IsStored on_update m p.payload session w v))
        | inr e ↦ rw e v
      ]

  take-IsStored :
      (now : ℕ) (m : ProfileManager) (c : Client) (t : PacketType) (text : Bytes)
      → IsStored m
      → IsStored (take on_update now m c t text).0
  unfolding take
  take-IsStored now m c follow text v = follow-IsStored on_update m c.token.username text v
  take-IsStored now m c send text v = v
  take-IsStored now m c close text v = v
  take-IsStored now m c login text v = v
  take-IsStored now m c ack text v = v
  take-IsStored now m c answer text v = v
  take-IsStored now m c is_alive text v = v
  take-IsStored now m c server_down text v = v
  take-IsStored now m c new_replica text v = v
  take-IsStored now m c replicas text v = v
  take-IsStored now m c new_leader text v = v
  take-IsStored now m c election text v = v
  take-IsStored now m c coordinator text v = v
  take-IsStored now m c update_profile text v = v
  take-IsStored now m c update_notification text v = v
  take-IsStored now m c data_type text v = v
  take-IsStored now m c success text v = v
  take-IsStored now m c error text v = v
  take-IsStored now m c no_type text v = v

  receive_at-IsStored :
      (s : Service) (c : Client) (stage : Stage) (now : ℕ) (p : Option Packet)
      → IsStored s.profiles
      → IsStored (receive_at on_update s c stage now p).profiles
  receive_at-IsStored s c idle now none v = v
  receive_at-IsStored s c idle now (some p) v = take-IsStored now s.profiles c p.type p.payload v
  receive_at-IsStored s c (publishing text followers) now p v = v
  receive_at-IsStored s c leaving now p v = v

  publish_at-IsStored :
      (s : Service) (c : Client) (stage : Stage) (now : ℕ)
      → IsStored s.profiles
      → IsStored (publish_at on_update s c stage now).profiles
  publish_at-IsStored s c (publishing text followers) now v = v
  publish_at-IsStored s c idle now v = v
  publish_at-IsStored s c leaving now v = v

  close_at-IsStored :
      (s : Service) (c : Client) (stage : Stage)
      → IsStored s.profiles
      → IsStored (close_at on_update s c stage).profiles
  close_at-IsStored s c leaving v =
      close_session-IsStored s.profiles c.token.username c.token.thread_id v
  close_at-IsStored s c idle v = v
  close_at-IsStored s c (publishing text followers) v = v

  with_client-IsStored :
      (act : Client → Service) (s : Service) (o : Option Client)
      → ((c : Client) → IsStored (act c).profiles)
      → IsStored s.profiles
      → IsStored (with_client on_update act s o).profiles
  with_client-IsStored act s none h v = v
  with_client-IsStored act s (some c) h v = h c

  run_moves-IsStored :
      (s : Service) (xs : List Move)
      → LoginsFit xs
      → IsStored s.profiles
      → IsStored (run_moves on_update s xs).profiles
  unfolding run_moves move authorize_session
  run_moves-IsStored s [] w v = v
  run_moves-IsStored s (connects id now none ∷ xs) w v =
      run_moves-IsStored (move on_update s (connects id now none)) xs w
        (admit-IsStored s id (authorize_session on_update now s.profiles id none) v)
  run_moves-IsStored s (connects id now (some p) ∷ xs) w v =
      run_moves-IsStored (move on_update s (connects id now (some p))) xs w.1 (
        admit-IsStored s id (authorize_session on_update now s.profiles id (some p))
          (authorize-IsStored now id s.profiles p w.0 v))
  run_moves-IsStored s (receives id now p ∷ xs) w v =
      run_moves-IsStored (move on_update s (receives id now p)) xs w (
        with_client-IsStored (λ c. receive_at on_update s c c.stage now p) s
          (client_at id s.clients) (λ c. receive_at-IsStored s c c.stage now p v) v)
  run_moves-IsStored s (publishes id now ∷ xs) w v =
      run_moves-IsStored (move on_update s (publishes id now)) xs w (
        with_client-IsStored (λ c. publish_at on_update s c c.stage now) s (client_at id s.clients)
          (λ c. publish_at-IsStored s c c.stage now v) v)
  run_moves-IsStored s (closes id ∷ xs) w v =
      run_moves-IsStored (move on_update s (closes id)) xs w (
        with_client-IsStored (λ c. close_at on_update s c c.stage) s (client_at id s.clients)
          (λ c. close_at-IsStored s c c.stage v) v)

  -- However the threads of any number of connections interleave, a server that is started again
  -- afterwards and reads the file has the same users in the same order, each with the same
  -- followers, numbered from 1 and without sessions. The file stood for the users at the start,
  -- and the names in the first packets of the connections are not empty and contain no semicolon
  -- and no newline.
  pub run_moves-load_users :
      (s : Service) (xs : List Move)
      → IsStored s.profiles
      → LoginsFit xs
      → (m : ProfileManager) × (load_users (run_moves on_update s xs).profiles ≡ some m)
        × Reloaded 1 (run_moves on_update s xs).profiles.users m.users
        × IsStored m
  unfolding run
  run_moves-load_users s xs v w =
      load_users-run on_update (run_moves on_update s xs).profiles [] (run_moves-IsStored s xs w v)
        tt
