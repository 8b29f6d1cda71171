-- ===== src/Server/Clients/Tokens.antt =====
-- The tokens of the threads, by name and by thread.
use twitter_clone.Prelude.{
  ℕ, ◌≡◌, refl, sym, subst, ap, ◌∙◌, false, List, [], ◌∷◌, ◌++◌, some, arith, Bytes, bytes_eq,
  Bool-cases, inl, inr, if◌then◌else◌, ◌==◌, ==_iff,
}
use twitter_clone.Profile.{Session}
use twitter_clone.Profile.Sessions.{DistinctIds, Fresh, others}
use twitter_clone.Server.Sessions.{others-Fresh}
use twitter_clone.Server.Clients.{Client, tokens, client_at, put, gone}

-- The sessions under a name.
abbrev pub of_name : Bytes → List Session → List Session
of_name name [] = []
of_name name (s ∷ ss) =
    let rest = of_name name ss in if bytes_eq s.username name then s ∷ rest else rest

pub of_name-concat :
    (name : Bytes) (ss : List Session) (s : Session)
    → of_name name (ss ++ s ∷ [])
      ≡ (if bytes_eq s.username name then of_name name ss ++ s ∷ [] else of_name name ss)
of_name-concat name [] s = ground arith
of_name-concat name (t ∷ ss) s = ground (arith, of_name-concat name ss s)

pub of_name-others :
    (name : Bytes) (id : ℕ) (ss : List Session)
    → of_name name (others id ss) ≡ others id (of_name name ss)
of_name-others name id [] = refl
of_name-others name id (s ∷ ss) = ground (arith, of_name-others name id ss)

of_name-Fresh :
    (name : Bytes) (id : ℕ) (ss : List Session) → Fresh id ss → Fresh id (of_name name ss)
of_name-Fresh name id [] f = tt
of_name-Fresh name id (s ∷ ss) f = elim (Bool-cases (bytes_eq s.username name)) [
  | inl e ↦ rw e (f.0, of_name-Fresh name id ss f.1)
  | inr e ↦ rw e (of_name-Fresh name id ss f.1)
]

pub of_name-DistinctIds :
    (name : Bytes) (ss : List Session) → DistinctIds ss → DistinctIds (of_name name ss)
of_name-DistinctIds name [] d = tt
of_name-DistinctIds name (s ∷ ss) d = elim (Bool-cases (bytes_eq s.username name)) [
  | inl e ↦ rw e (of_name-Fresh name s.thread_id ss d.0, of_name-DistinctIds name ss d.1)
  | inr e ↦ rw e (of_name-DistinctIds name ss d.1)
]

pub others-DistinctIds : (id : ℕ) (ss : List Session) → DistinctIds ss → DistinctIds (others id ss)
others-DistinctIds id [] d = tt
others-DistinctIds id (s ∷ ss) d = elim (Bool-cases (s.thread_id == id)) [
  | inl e ↦ rw e (others-DistinctIds id ss d.1)
  | inr e ↦ rw e (others_keep s.thread_id id ss d.0, others-DistinctIds id ss d.1)
]
  where
    others_keep : (k id : ℕ) (ss : List Session) → Fresh k ss → Fresh k (others id ss)
    others_keep k id [] f = tt
    others_keep k id (s ∷ ss) f = elim (Bool-cases (s.thread_id == id)) [
      | inl e ↦ rw e (others_keep k id ss f.1)
      | inr e ↦ rw e (f.0, others_keep k id ss f.1)
    ]

pub client_at-id :
    (id : ℕ) (cs : List Client) (c : Client) → client_at id cs ≡ some c → c.token.thread_id ≡ id
unfolding client_at
client_at-id id [] c e = absurd cc
client_at-id id (x ∷ xs) c e = ground (arith, client_at-id id xs c)

pub tokens-put :
    (id : ℕ) (cs : List Client) (c c' : Client)
    → client_at id cs ≡ some c
    → c'.token ≡ c.token
    → tokens (put c' cs) ≡ tokens cs
unfolding client_at put
tokens-put id [] c c' e same = absurd cc
tokens-put id (x ∷ xs) c c' e same =
    let here : c'.token.thread_id ≡ id =
      ap (λ t. t.thread_id) same ∙ client_at-id id (x ∷ xs) c e in
    elim (Bool-cases (x.token.thread_id == id)) [
      | inl h ↦
          let found : x ≡ c = ground arith in
          rw (ap (λ k. x.token.thread_id == k) here ∙ h)
            (ap (λ t. t ∷ tokens xs) (same ∙ ap (λ y. y.token) (sym found)))
      | inr h ↦
          rw (ap (λ k. x.token.thread_id == k) here ∙ h)
            (ap (λ t. x.token ∷ t) (tokens-put id xs c c' (ground arith) same))
    ]

pub tokens-gone : (id : ℕ) (cs : List Client) → tokens (gone id cs) ≡ others id (tokens cs)
unfolding gone
tokens-gone id [] = refl
tokens-gone id (c ∷ cs) = ground (arith, tokens-gone id cs)

-- A thread serves one name only.
pub others-of_name :
    (id : ℕ) (cs : List Client) (c : Client) (name : Bytes)
    → client_at id cs ≡ some c
    → DistinctIds (tokens cs)
    → bytes_eq c.token.username name ≡ false
    → others id (of_name name (tokens cs)) ≡ of_name name (tokens cs)
unfolding client_at
others-of_name id [] c name e d apart = absurd cc
others-of_name id (x ∷ xs) c name e d apart = elim (Bool-cases (x.token.thread_id == id)) [
  | inl h ↦
      let found : x ≡ c = ground arith in
      let other : bytes_eq x.token.username name ≡ false =
        ap (λ y. bytes_eq y.token.username name) found ∙ apart in
      rw other (
        others-Fresh id (of_name name (tokens xs)) (
          of_name-Fresh name id (tokens xs)
            (subst (λ k. Fresh k (tokens xs)) ((==_iff x.token.thread_id id).0 h) d.0)))
  | inr h ↦
      let rest = others-of_name id xs c name (ground arith) d.1 apart in
      elim (Bool-cases (bytes_eq x.token.username name)) [
        | inl k ↦ rw (k, h) (ap (λ t. x.token ∷ t) rest)
        | inr k ↦ rw k rest
      ]
]
