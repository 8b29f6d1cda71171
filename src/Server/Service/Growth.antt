-- ===== src/Server/Service/Growth.antt =====
-- The responses of a connection: a login that is accepted is answered first.
use twitter_clone.Prelude.{
  ℕ, ◌≡◌, refl, sym, ap, ◌∙◌, Bool, true, List, [], ◌∷◌, ◌++◌, some, arith, ◌==◌, ltb_ℤ, false, pos,
  ◌&&◌, inl, inr, append-nil, append_assoc, Bytes, if◌then◌else◌,
}
use twitter_clone.Prelude.Map.{Map}
use twitter_clone.Packet.{Packet}
use twitter_clone.Packet.Types.{success}
use twitter_clone.Profile.{User}
use twitter_clone.Profile.Manager.{ProfileManager, start_session}
use twitter_clone.Server.{
  Server, Response, respond, run_authorized, start_serving, refuse, serve, finish, run,
  authorize_session, session_token, is_login, answer_with, respond_and,
}
use twitter_clone.Server.Service.{execute-cases}

-- The first list with something behind it.
abbrev pub Grows : List Response → List Response → Type 0
Grows before after = (more : List Response) × (after ≡ before ++ more)

same : (n : ℕ) → (n == n) ≡ true
same n = ground arith

module _ (on_update : Map User → Bool) (now : ℕ) where
  serve-Grows :
      (s : Server) (username : Bytes) (requests : List Packet)
      → Grows s.responses (serve on_update now s username requests).responses
  unfolding serve
  serve-Grows s username [] = ([], sym (append-nil s.responses))
  serve-Grows s username (p ∷ ps) =
      let rest : Server → Server = λ s₂. serve on_update now s₂ username ps in
      elim (execute-cases on_update now s username p.type p.payload) [
        | inl (e, stops) ↦ (
          [],
          ap (λ o. (respond_and on_update now rest s o).responses) e ∙ sym (append-nil s.responses),
        )
        | inr a ↦
            let (more, grows) = serve-Grows (answer_with on_update now a.result) username ps in
            (
              a.result.1 ∷ more,
              ap (λ o. (respond_and on_update now rest s o).responses) a.is_result
                  ∙ grows
                  ∙ append_assoc a.result.0.responses (a.result.1 ∷ []) more
                  ∙ ap (λ l. l ++ a.result.1 ∷ more) a.nothing_else,
            )
      ]

  token_started :
      (username : Bytes) (id : ℕ) (r : ProfileManager × Bool)
      → r.1 ≡ true
      → session_token on_update now username id r ≡ (r.0, username, id)
  token_started username id (m, true) e = refl
  token_started username id (m, false) e = absurd cc

  -- The client is told first that the login succeeded, if the manager starts the session.
  pub run-Grows :
      (s : Server) (id : ℕ) (p : Packet) (requests : List Packet)
      → (ltb_ℤ (pos 0) p.length && is_login on_update now p.type) ≡ true
      → (start_session on_update s.profiles p.payload
          (record { thread_id = id; username = p.payload })).1
        ≡ true
      → Grows
          (s.responses ++ respond success [] ∷ [])
          (run on_update now s id (some p) requests).responses
  unfolding run authorize_session
  run-Grows s id p requests is_request starts =
      let r =
        start_session on_update s.profiles p.payload
          (record { thread_id = id; username = p.payload }) in
      let served = serve on_update now (start_serving on_update now s r.0) p.payload requests in
      let (more, grows) = serve-Grows (start_serving on_update now s r.0) p.payload requests in
      (
        more,
        ap
              (λ b.
                (run_authorized on_update now s id requests (
                  if b
                  then session_token on_update now p.payload id r
                  else (s.profiles, [], 0))).responses)
              is_request
            ∙ ap (λ t. (run_authorized on_update now s id requests t).responses)
                (token_started p.payload id r starts)
            ∙ ap
                (λ b.
                  (if b
                    then finish on_update now served p.payload id
                    else refuse on_update now s r.0).responses)
                (same id)
            ∙ unfold finish in grows,
      )
