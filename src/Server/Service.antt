-- ===== src/Server/Service.antt =====
-- What a client gets who is served: one response to each request, and a service that keeps the
-- users valid.
pub mod Growth
use twitter_clone.Prelude.{
  ℕ, ◌+◌, ◌≡◌, refl, sym, subst, ap, ◌∙◌, Bool, true, false, List, [], ◌∷◌, Option, none, some,
  arith, ◌⊎◌, length, length-append, take_while, take_while-on, take_while-off, Bytes, Bool-cases,
  ◌&&◌, ◌==◌, ltb_ℤ, pos, inl, inr,
}
use twitter_clone.Prelude.Map.{Map}
use twitter_clone.Packet.{Packet}
use twitter_clone.Packet.Types.{
  PacketType, close, send, follow, ack, answer, is_alive, server_down, new_replica, replicas,
  new_leader, election, coordinator, update_profile, update_notification, data_type, success, error,
  no_type, login,
}
use twitter_clone.Profile.{User}
use twitter_clone.Profile.Manager.{ProfileManager, start_session}
use twitter_clone.Profile.Manager.Invariant.{
  AllValid, follow-AllValid, start_session-AllValid, close_session-AllValid,
}
use twitter_clone.Profile.{Session}
use twitter_clone.Profile.Manager.Sessions.{sessions_at, follow-sessions}
use twitter_clone.Server.{
  Server, Response, run_authorized, start_serving, execute, serve, authorize_session, session_token,
  is_login, finish, run, send_tweet, follow_route, answer_with, respond_and,
}

pub goes_on_with : PacketType → Bool
goes_on_with t = elim t [ close ↦ false | _ ↦ true ]

abbrev pub goes_on : Packet → Bool
goes_on p = goes_on_with p.type

module _ (on_update : Map User → Bool) (now : ℕ) where
  -- A request that goes on gets a response, sends nothing else, and keeps the users valid.
  record Answered (s : Server) (t : PacketType) (o : Option (Server × Response)) : Type 0 where
    result : Server × Response
    is_result : o ≡ some result
    goes : goes_on_with t ≡ true
    nothing_else : result.0.responses ≡ s.responses
    keeps : AllValid s.profiles.users → AllValid result.0.profiles.users
    same_sessions :
        (name : Bytes) → sessions_at name result.0.profiles ≡ sessions_at name s.profiles

  abbrev Outcome : Server → PacketType → Option (Server × Response) → Type 0
  Outcome s t o = ((o ≡ none) × (goes_on_with t ≡ false)) ⊎ Answered s t o

  unchanged :
      (s : Server) (t : PacketType) (r : Response)
      → goes_on_with t ≡ true
      → Outcome s t (some (s, r))
  unchanged s t r e = inr (record {
    result = (s, r);
    is_result = refl;
    goes = e;
    nothing_else = refl;
    keeps = λ v. v;
    same_sessions = λ name. refl;
  })

  execute-cases :
      (s : Server) (u : Bytes) (t : PacketType) (payload : Bytes)
      → Outcome s t (execute on_update now s u t payload)
  unfolding execute goes_on_with
  execute-cases s u close payload = inl (refl, refl)
  execute-cases s u send payload =
      unfold send_tweet in
      inr (record {
        result = send_tweet on_update now s u payload;
        is_result = refl;
        goes = refl;
        nothing_else = refl;
        keeps = λ v. v;
        same_sessions = λ name. refl;
      })
  execute-cases s u follow payload =
      unfold follow_route in
      inr (record {
        result = follow_route on_update now s u payload;
        is_result = refl;
        goes = refl;
        nothing_else = refl;
        keeps = λ v. follow-AllValid on_update s.profiles u payload v;
        same_sessions = λ name. follow-sessions on_update s.profiles u payload name;
      })
  execute-cases s u ack payload = unchanged s ack _ refl
  execute-cases s u answer payload = unchanged s answer _ refl
  execute-cases s u is_alive payload = unchanged s is_alive _ refl
  execute-cases s u server_down payload = unchanged s server_down _ refl
  execute-cases s u new_replica payload = unchanged s new_replica _ refl
  execute-cases s u replicas payload = unchanged s replicas _ refl
  execute-cases s u new_leader payload = unchanged s new_leader _ refl
  execute-cases s u election payload = unchanged s election _ refl
  execute-cases s u coordinator payload = unchanged s coordinator _ refl
  execute-cases s u update_profile payload = unchanged s update_profile _ refl
  execute-cases s u update_notification payload = unchanged s update_notification _ refl
  execute-cases s u data_type payload = unchanged s data_type _ refl
  execute-cases s u success payload = unchanged s success _ refl
  execute-cases s u error payload = unchanged s error _ refl
  execute-cases s u no_type payload = unchanged s no_type _ refl
  execute-cases s u login payload = unchanged s login _ refl

  -- Every request before the first CLOSE gets exactly one response, and no other packet is sent by
  -- the loop.
  pub length-serve :
      (s : Server) (username : Bytes) (requests : List Packet)
      → length (serve on_update now s username requests).responses
        ≡ length s.responses + length (take_while goes_on requests)
  unfolding serve
  length-serve s username [] = omega arith
  length-serve s username (p ∷ ps) =
      let rest : Server → Server = λ s₂. serve on_update now s₂ username ps in
      elim (execute-cases s username p.type p.payload) [
        | inl (e, stops) ↦
            ap (λ o. length (respond_and on_update now rest s o).responses) e
            ∙ omega (arith, ap length (take_while-off goes_on p ps stops))
        | inr a ↦
            let (s', r) = a.result in
            ap (λ o. length (respond_and on_update now rest s o).responses) a.is_result
            ∙ length-serve (answer_with on_update now (s', r)) username ps
            ∙ omega (
              arith,
              ap length (take_while-on goes_on p ps a.goes),
              length-append s'.responses (r ∷ []),
              ap length a.nothing_else,
            )
      ]

  serve-AllValid :
      (s : Server) (username : Bytes) (requests : List Packet)
      → AllValid s.profiles.users
      → AllValid (serve on_update now s username requests).profiles.users
  unfolding serve
  serve-AllValid s username [] v = v
  serve-AllValid s username (p ∷ ps) v =
      let rest : Server → Server = λ s₂. serve on_update now s₂ username ps in
      elim (execute-cases s username p.type p.payload) [
        | inl (e, stops) ↦
            subst (λ o. AllValid (respond_and on_update now rest s o).profiles.users) (sym e) v
        | inr a ↦
            subst (λ o. AllValid (respond_and on_update now rest s o).profiles.users)
              (sym a.is_result)
              (serve-AllValid (answer_with on_update now a.result) username ps (a.keeps v))
      ]

  -- Requests change no one's sessions.
  pub serve-sessions :
      (s : Server) (username name : Bytes) (requests : List Packet)
      → sessions_at name (serve on_update now s username requests).profiles
        ≡ sessions_at name s.profiles
  unfolding serve
  serve-sessions s username name [] = refl
  serve-sessions s username name (p ∷ ps) =
      let rest : Server → Server = λ s₂. serve on_update now s₂ username ps in
      let after : Option (Server × Response) → Option (List Session) =
        λ o. sessions_at name (respond_and on_update now rest s o).profiles in
      elim (execute-cases s username p.type p.payload) [
        | inl (e, stops) ↦ ap after e
        | inr a ↦
            ap after a.is_result
            ∙ serve-sessions (answer_with on_update now a.result) username name ps
            ∙ a.same_sessions name
      ]

  authorize-AllValid :
      (m : ProfileManager) (id : ℕ) (first : Option Packet)
      → AllValid m.users
      → AllValid (authorize_session on_update now m id first).0.users
  unfolding authorize_session
  authorize-AllValid m id none v = v
  authorize-AllValid m id (some p) v =
      elim (Bool-cases (ltb_ℤ (pos 0) p.length && is_login on_update now p.type)) [
        | inl e ↦ rw e (
            token-AllValid p.payload id
              (start_session on_update m p.payload
                (record { thread_id = id; username = p.payload }))
              (start_session-AllValid on_update m p.payload _ v))
        | inr e ↦ rw e v
      ]
    where
      token-AllValid :
          (u : Bytes) (id : ℕ) (r : ProfileManager × Bool)
          → AllValid r.0.users
          → AllValid (session_token on_update now u id r).0.users
      token-AllValid u id (m', true) w = w
      token-AllValid u id (m', false) w = w

  authorized-AllValid :
      (s : Server) (id : ℕ) (requests : List Packet) (r : ProfileManager × Bytes × ℕ)
      → AllValid r.0.users
      → AllValid (run_authorized on_update now s id requests r).profiles.users
  authorized-AllValid s id requests (m, username, token) v = elim (Bool-cases (token == id)) [
    | inl e ↦ rw e (
        unfold finish in
        close_session-AllValid _ username token
          (serve-AllValid (start_serving on_update now s m) username requests v))
    | inr e ↦ rw e v
  ]

  -- A whole connection, from the login to its end and whatever its packets are, keeps the users
  -- valid: under their own names, with distinct followers other than themselves, and within the
  -- limit of sessions.
  pub run_connection-AllValid :
      (s : Server) (id : ℕ) (first : Option Packet) (requests : List Packet)
      → AllValid s.profiles.users
      → AllValid (run on_update now s id first requests).profiles.users
  unfolding run
  run_connection-AllValid s id first requests v =
      authorized-AllValid s id requests (authorize_session on_update now s.profiles id first)
        (authorize-AllValid s.profiles id first v)
