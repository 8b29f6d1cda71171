-- ===== src/Server/Clients/Balance.antt =====
-- Every interleaving of the threads keeps the sessions and the threads in step.
use twitter_clone.Prelude.{
  ℕ, ◌≡◌, ◌≤◌, refl, sym, subst, ap, ◌∙◌, Bool, true, List, [], ◌∷◌, Option, length, none, some,
  Bytes, Option-cases, inl, inr,
}
use twitter_clone.Prelude.Map.{Map}
use twitter_clone.Packet.{Packet}
use twitter_clone.Packet.Types.{
  PacketType, close, send, follow, ack, answer, is_alive, server_down, new_replica, replicas,
  new_leader, election, coordinator, update_profile, update_notification, data_type, success, error,
  no_type, login,
}
use twitter_clone.Profile.{User, max_sessions_per_user}
use twitter_clone.Profile.Manager.{ProfileManager}
use twitter_clone.Profile.Manager.Invariant.{AllValid, follow-AllValid}
use twitter_clone.Profile.Manager.Sessions.{follow-sessions, list_or_empty}
use twitter_clone.Profile.Manager.Held.{held}
use twitter_clone.Server.Clients.{
  Stage, idle, publishing, leaving, Client, Service, Move, connects, receives, publishes, closes,
  tokens, client_at, answered, take, receive_packet, put_result, receive_at, publish_at, close_at,
  with_client, move, run_moves, IsNew, AllNew,
}
use twitter_clone.Server.Clients.Tokens.{of_name, tokens-put}
use twitter_clone.Server.Clients.Ledger.{
  Balanced, held-limit, same_tokens, connects-Balanced, closes-Balanced,
}

module _ (on_update : Map User → Bool) (agrees : (users : Map User) → on_update users ≡ true) where
  -- The same token, and a manager with the same sessions and valid users.
  record Keeps (m : ProfileManager) (c : Client) (r : ProfileManager × Client) : Type 0 where
    token : r.1.token ≡ c.token
    sessions : (name : Bytes) → held name r.0 ≡ held name m
    valid : AllValid m.users → AllValid r.0.users

  answered-Keeps :
      (m : ProfileManager) (c : Client) (t : PacketType) (text : Bytes)
      → Keeps m c (m, answered c t text)
  answered-Keeps m c t text = record { token = refl; sessions = λ name. refl; valid = λ v. v }

  take-Keeps :
      (now : ℕ) (m : ProfileManager) (c : Client) (t : PacketType) (text : Bytes)
      → Keeps m c (take on_update now m c t text)
  unfolding take
  take-Keeps now m c send text = record { token = refl; sessions = λ name. refl; valid = λ v. v }
  take-Keeps now m c follow text = record {
    token = refl;
    sessions = λ name. ap list_or_empty (follow-sessions on_update m c.token.username text name);
    valid = follow-AllValid on_update m c.token.username text;
  }
  take-Keeps now m c close text = record { token = refl; sessions = λ name. refl; valid = λ v. v }
  take-Keeps now m c login text = answered-Keeps m c error _
  take-Keeps now m c ack text = answered-Keeps m c error _
  take-Keeps now m c answer text = answered-Keeps m c error _
  take-Keeps now m c is_alive text = answered-Keeps m c error _
  take-Keeps now m c server_down text = answered-Keeps m c error _
  take-Keeps now m c new_replica text = answered-Keeps m c error _
  take-Keeps now m c replicas text = answered-Keeps m c error _
  take-Keeps now m c new_leader text = answered-Keeps m c error _
  take-Keeps now m c election text = answered-Keeps m c error _
  take-Keeps now m c coordinator text = answered-Keeps m c error _
  take-Keeps now m c update_profile text = answered-Keeps m c error _
  take-Keeps now m c update_notification text = answered-Keeps m c error _
  take-Keeps now m c data_type text = answered-Keeps m c error _
  take-Keeps now m c success text = answered-Keeps m c error _
  take-Keeps now m c error text = answered-Keeps m c error _
  take-Keeps now m c no_type text = answered-Keeps m c error _

  receive_packet-Keeps :
      (now : ℕ) (m : ProfileManager) (c : Client) (p : Option Packet)
      → Keeps m c (receive_packet on_update now m c p)
  receive_packet-Keeps now m c none = record {
    token = refl;
    sessions = λ name. refl;
    valid = λ v. v;
  }
  receive_packet-Keeps now m c (some p) = take-Keeps now m c p.type p.payload

  put_result-Balanced :
      (s : Service) (id : ℕ) (c : Client) (r : ProfileManager × Client)
      → client_at id s.clients ≡ some c
      → Keeps s.profiles c r
      → Balanced s
      → Balanced (put_result on_update s r)
  put_result-Balanced s id c r e k b =
      same_tokens on_update agrees s (put_result on_update s r)
        (tokens-put id s.clients c r.1 e k.token) k.sessions (k.valid b.valid) b

  receive_at-Balanced :
      (s : Service) (id : ℕ) (c : Client) (stage : Stage) (now : ℕ) (p : Option Packet)
      → client_at id s.clients ≡ some c
      → Balanced s
      → Balanced (receive_at on_update s c stage now p)
  receive_at-Balanced s id c idle now p e b =
      put_result-Balanced s id c _ e (receive_packet-Keeps now s.profiles c p) b
  receive_at-Balanced s id c (publishing text followers) now p e b = b
  receive_at-Balanced s id c leaving now p e b = b

  publish_at-Balanced :
      (s : Service) (id : ℕ) (c : Client) (stage : Stage) (now : ℕ)
      → client_at id s.clients ≡ some c
      → Balanced s
      → Balanced (publish_at on_update s c stage now)
  publish_at-Balanced s id c (publishing text followers) now e b =
      same_tokens on_update agrees s (publish_at on_update s c (publishing text followers) now)
        (tokens-put id s.clients c (answered c success _) e refl) (λ name. refl) b.valid b
  publish_at-Balanced s id c idle now e b = b
  publish_at-Balanced s id c leaving now e b = b

  close_at-Balanced :
      (s : Service) (id : ℕ) (c : Client) (stage : Stage)
      → client_at id s.clients ≡ some c
      → Balanced s
      → Balanced (close_at on_update s c stage)
  close_at-Balanced s id c leaving e b = closes-Balanced on_update agrees s id c e b
  close_at-Balanced s id c idle e b = b
  close_at-Balanced s id c (publishing text followers) e b = b

  with_client-Balanced :
      (act : Client → Service) (s : Service) (id : ℕ)
      → ((c : Client) → client_at id s.clients ≡ some c → Balanced (act c))
      → Balanced s
      → Balanced (with_client on_update act s (client_at id s.clients))
  with_client-Balanced act s id h b = elim (Option-cases (client_at id s.clients)) [
    | inl e ↦ subst (λ o. Balanced (with_client on_update act s o)) (sym e) b
    | inr (c, e) ↦ subst (λ o. Balanced (with_client on_update act s o)) (sym e) (h c e)
  ]

  move-Balanced :
      (s : Service) (x : Move) → IsNew on_update s x → Balanced s → Balanced (move on_update s x)
  move-Balanced s (connects id now first) n b =
      connects-Balanced on_update agrees s id now first n.0 n.1 b
  move-Balanced s (receives id now p) n b =
      unfold move in
      with_client-Balanced (λ c. receive_at on_update s c c.stage now p) s id
        (λ c e. receive_at-Balanced s id c c.stage now p e b) b
  move-Balanced s (publishes id now) n b =
      unfold move in
      with_client-Balanced (λ c. publish_at on_update s c c.stage now) s id
        (λ c e. publish_at-Balanced s id c c.stage now e b) b
  move-Balanced s (closes id) n b =
      unfold move in
      with_client-Balanced (λ c. close_at on_update s c c.stage) s id
        (λ c e. close_at-Balanced s id c c.stage e b) b

  run_moves-Balanced :
      (s : Service) (xs : List Move)
      → AllNew on_update s xs
      → Balanced s
      → Balanced (run_moves on_update s xs)
  unfolding run_moves AllNew
  run_moves-Balanced s [] n b = b
  run_moves-Balanced s (x ∷ xs) n b =
      run_moves-Balanced (move on_update s x) xs n.1 (move-Balanced s x n.0 b)

  -- However the threads of any number of connections interleave, each name is served by two threads
  -- at most, and its sessions are exactly those of these threads, in the order of their logins: no
  -- session outlives its thread. At the start there are no threads, no sessions and valid users; a
  -- new thread's id is not 0 and differs from those of the living threads, and the callback agrees
  -- to each update.
  pub run_moves-clients :
      (s : Service) (xs : List Move)
      → s.clients ≡ []
      → ((name : Bytes) → held name s.profiles ≡ [])
      → AllValid s.profiles.users
      → AllNew on_update s xs
      → (name : Bytes)
      → let t = run_moves on_update s xs in
        (held name t.profiles ≡ of_name name (tokens t.clients))
        × (length (of_name name (tokens t.clients)) ≤ max_sessions_per_user)
  run_moves-clients s xs none_served no_sessions v n name =
      let no_tokens : tokens s.clients ≡ [] = ap tokens none_served in
      let b = run_moves-Balanced s xs n (record {
        distinct = rw no_tokens tt;
        ledger = λ j. no_sessions j ∙ ap (of_name j) (sym no_tokens);
        valid = v;
      }) in
      let t = run_moves on_update s xs in
      (
        b.ledger name,
        subst (λ l. length l ≤ max_sessions_per_user) (b.ledger name)
            (held-limit name t.profiles b.valid),
      )
