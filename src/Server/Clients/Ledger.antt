-- ===== src/Server/Clients/Ledger.antt =====
-- The sessions of the users and the threads that serve them.
use twitter_clone.Prelude.{
  ℕ, ◌≡◌, ◌≤◌, ◌<◌, refl, sym, subst, ap, ◌∙◌, Bool, true, false, List, [], ◌∷◌, ◌++◌, Option,
  length, ◌&&◌, ltb_ℤ, pos, none, some, arith, Bytes, bytes_eq, bytes_eq_iff, Bool-cases,
  Option-cases, inl, inr, if◌then◌else◌, ◌==◌, ==_iff,
}
use twitter_clone.Prelude.Map.{Map, find}
use twitter_clone.Packet.{Packet}
use twitter_clone.Packet.Types.{success}
use twitter_clone.Profile.{User, Session, max_sessions_per_user}
use twitter_clone.Profile.Sessions.{DistinctIds, Fresh, others}
use twitter_clone.Profile.Manager.{ProfileManager, start_session}
use twitter_clone.Profile.Manager.Invariant.{
  AllValid, find-IsValid, start_session-AllValid, close_session-AllValid,
}
use twitter_clone.Profile.Manager.Held.{
  held, changed_at, Started, start_session-held, close_session-held,
}
use twitter_clone.Server.{authorize_session, session_token, is_login, respond}
use twitter_clone.Server.Sessions.{DistinctIds-concat}
use twitter_clone.Server.Clients.{
  idle, leaving, Client, Service, connects, tokens, client_at, admit, close_at, move,
}
use twitter_clone.Server.Clients.Tokens.{
  of_name, of_name-concat, of_name-others, of_name-DistinctIds, others-DistinctIds, client_at-id,
  tokens-gone, others-of_name,
}

-- The sessions of each user are those of the threads that serve her.
pub record Balanced (s : Service) : Type 0 where
  pub distinct : DistinctIds (tokens s.clients)
  pub ledger : (name : Bytes) → held name s.profiles ≡ of_name name (tokens s.clients)
  pub valid : AllValid s.profiles.users

pub held-limit :
    (name : Bytes) (m : ProfileManager)
    → AllValid m.users
    → length (held name m) ≤ max_sessions_per_user
held-limit name m v = elim (Option-cases (find name m.users)) [
  | inl missing ↦ rw missing (omega arith)
  | inr (u, found) ↦ rw found (find-IsValid name m.users u v found).sessions
]

tokens-concat : (cs : List Client) (c : Client) → tokens (cs ++ c ∷ []) ≡ tokens cs ++ c.token ∷ []
tokens-concat [] c = refl
tokens-concat (x ∷ xs) c = ap (λ t. x.token ∷ t) (tokens-concat xs c)

added_to_name :
    (s : Service) (t : Session) (j : Bytes)
    → Balanced s
    → changed_at t.username (held t.username s.profiles ++ t ∷ []) j s.profiles ≡ (
        if bytes_eq t.username j
        then of_name j (tokens s.clients) ++ t ∷ []
        else of_name j (tokens s.clients))
added_to_name s t j b = elim (Bool-cases (bytes_eq t.username j)) [
  | inl e ↦ rw e (
      ap (λ l. l ++ t ∷ [])
        (b.ledger t.username
          ∙ ap (λ n. of_name n (tokens s.clients)) ((bytes_eq_iff t.username j).0 e)))
  | inr e ↦ rw e (b.ledger j)
]

removed_of_name :
    (s : Service) (c : Client) (id : ℕ) (j : Bytes)
    → client_at id s.clients ≡ some c
    → Balanced s
    → changed_at c.token.username (others id (held c.token.username s.profiles)) j s.profiles
      ≡ others id (of_name j (tokens s.clients))
removed_of_name s c id j found b = elim (Bool-cases (bytes_eq c.token.username j)) [
  | inl e ↦ rw e (
      ap (others id) (
        b.ledger c.token.username
        ∙ ap (λ n. of_name n (tokens s.clients)) ((bytes_eq_iff c.token.username j).0 e)))
  | inr e ↦ rw e (b.ledger j ∙ sym (others-of_name id s.clients c j found b.distinct e))
]

module _ (on_update : Map User → Bool) (agrees : (users : Map User) → on_update users ≡ true) where
  -- A manager whose sessions did not change, and threads with the same tokens.
  pub same_tokens :
      (s t : Service)
      → tokens t.clients ≡ tokens s.clients
      → ((name : Bytes) → held name t.profiles ≡ held name s.profiles)
      → AllValid t.profiles.users
      → Balanced s
      → Balanced t
  same_tokens s t e h v b = record {
    distinct = subst DistinctIds (sym e) b.distinct;
    ledger = λ name. h name ∙ b.ledger name ∙ ap (of_name name) (sym e);
    valid = v;
  }

  refused-Balanced :
      (s : Service) (id : ℕ) (m : ProfileManager)
      → 0 < id
      → ((name : Bytes) → held name m ≡ held name s.profiles)
      → AllValid m.users
      → Balanced s
      → Balanced (admit on_update s id (m, [], 0))
  refused-Balanced s id m k h v b =
      let apart : (0 == id) ≡ false = ground arith in
      rw apart
        (same_tokens s (record s { profiles = m; refused = s.refused ++ id ∷ [] }) refl h v b)

  admitted-Balanced :
      (s : Service) (id : ℕ) (name : Bytes) (m : ProfileManager)
      → Fresh id (tokens s.clients)
      → ((j : Bytes)
          → held j m
            ≡ changed_at name
                (held name s.profiles ++ record { thread_id = id; username = name } ∷ [])
                j
                s.profiles)
      → AllValid m.users
      → Balanced s
      → Balanced (admit on_update s id (m, name, id))
  admitted-Balanced s id name m f h v b =
      let token : Session = record { thread_id = id; username = name } in
      let c : Client = record {
        token = token;
        stage = idle;
        responses = respond success [] ∷ [];
      } in
      let admitted = record s { profiles = m; clients = s.clients ++ c ∷ [] } in
      let e = tokens-concat s.clients c in
      let balanced : Balanced admitted = record {
        distinct =
            subst DistinctIds (sym e) (DistinctIds-concat (tokens s.clients) token b.distinct f);
        ledger = λ j.
            h j
            ∙ added_to_name s token j b
            ∙ sym (of_name-concat j (tokens s.clients) token)
            ∙ ap (of_name j) (sym e);
        valid = v;
      } in
      rw ((==_iff id id).1 refl) balanced

  session_token-Balanced :
      (s : Service) (id now : ℕ) (name : Bytes) (r : ProfileManager × Bool)
      → 0 < id
      → Fresh id (tokens s.clients)
      → Started s.profiles name (record { thread_id = id; username = name }) r
      → AllValid r.0.users
      → Balanced s
      → Balanced (admit on_update s id (session_token on_update now name id r))
  session_token-Balanced s id now name (m, true) k f (inl (e, h)) v b =
      admitted-Balanced s id name m f h v b
  session_token-Balanced s id now name (m, true) k f (inr (e, h)) v b = absurd cc
  session_token-Balanced s id now name (m, false) k f (inl (e, h)) v b = absurd cc
  session_token-Balanced s id now name (m, false) k f (inr (e, h)) v b =
      refused-Balanced s id m k h v b

  pub connects-Balanced :
      (s : Service) (id now : ℕ) (first : Option Packet)
      → 0 < id
      → Fresh id (tokens s.clients)
      → Balanced s
      → Balanced (move on_update s (connects id now first))
  unfolding move authorize_session
  connects-Balanced s id now none k f b =
      refused-Balanced s id s.profiles k (λ name. refl) b.valid b
  connects-Balanced s id now (some p) k f b =
      let token : Session = record { thread_id = id; username = p.payload } in
      elim (Bool-cases (ltb_ℤ (pos 0) p.length && is_login on_update now p.type)) [
        | inl e ↦ rw e (
            session_token-Balanced s id now p.payload
              (start_session on_update s.profiles p.payload token) k f
              (start_session-held on_update agrees s.profiles p.payload token)
              (start_session-AllValid on_update s.profiles p.payload token b.valid) b)
        | inr e ↦ rw e (refused-Balanced s id s.profiles k (λ name. refl) b.valid b)
      ]

  pub closes-Balanced :
      (s : Service) (id : ℕ) (c : Client)
      → client_at id s.clients ≡ some c
      → Balanced s
      → Balanced (close_at on_update s c leaving)
  closes-Balanced s id c e b =
      let k = c.token.thread_id in
      let name = c.token.username in
      let found : client_at k s.clients ≡ some c =
        ap (λ n. client_at n s.clients) (client_at-id id s.clients c e) ∙ e in
      let left = tokens-gone k s.clients in
      record {
        distinct =
            subst DistinctIds (sym left) (others-DistinctIds k (tokens s.clients) b.distinct);
        ledger = λ j.
            close_session-held s.profiles name k j (held-limit name s.profiles b.valid) (
              subst DistinctIds (sym (b.ledger name))
                (of_name-DistinctIds name (tokens s.clients) b.distinct))
            ∙ removed_of_name s c k j found b
            ∙ sym (of_name-others j k (tokens s.clients))
            ∙ ap (of_name j) (sym left);
        valid = close_session-AllValid s.profiles name k b.valid;
      }
