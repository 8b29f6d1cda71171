-- ===== src/Replication/Election.antt =====
-- The election: who loses it, and that two replicas that know each other do not both win.
use twitter_clone.Prelude.{
  ℕ, ◌≡◌, refl, sym, subst, ◌∙◌, Bool, true, false, ◌&&◌, ◌||◌, List, [], ◌∷◌, some, arith, Bytes,
  bytes_eq_comm, bytes_eq_refl, codes, ltb_ℤ_total, int_eq_comm, ◌⊎◌, Bool-cases, inl, inr,
}
use twitter_clone.Packet.{c_str}
use twitter_clone.Replication.{ReplicaInfo, serialize, is_not_me, ranks_above}
use twitter_clone.Replication.Manager.{send_election}
use twitter_clone.Replication.Handler.{judge, answer_election}
use twitter_clone.Replication.Wire.{
  IsWritable, deserialize-serialize_replica, c_str-serialize_replica,
}

-- Each peer answers as the handler of the replica that the vector names.
abbrev pub Answers : (ℕ → Bytes → Bytes) → List (ℕ × ReplicaInfo) → Type 0
Answers answer [] = Unit
Answers answer ((conn, r) ∷ v) =
    ((payload : Bytes) (a : Bytes) → answer_election r payload ≡ some a → answer conn payload ≡ a)
    × Answers answer v

-- Another replica of the vector has a smaller id.
unfoldable pub is_outranked : ReplicaInfo → List (ℕ × ReplicaInfo) → Bool
is_outranked me [] = false
is_outranked me ((conn, r) ∷ v) = (is_not_me me r && ranks_above r me) || is_outranked me v

ranks_above_asym : (r me : ReplicaInfo) → ranks_above r me ≡ true → ranks_above me r ≡ false
unfolding ranks_above
ranks_above_asym r me h = ground arith

and_right : (a b : Bool) → (a && b) ≡ true → b ≡ true
and_right true b h = h
and_right false b h = cc

and-false : (a : Bool) → (a && false) ≡ false
and-false true = refl
and-false false = refl

and_rest : (a b : Bool) → a ≡ true → (a && b) ≡ false → b ≡ false
and_rest true b e h = h
and_rest false b e h = cc

pub or_left : (a b : Bool) → (a || b) ≡ false → a ≡ false
or_left true b h = cc
or_left false b h = refl

pub or_right : (a b : Bool) → (a || b) ≡ false → b ≡ false
or_right true b h = cc
or_right false b h = h

answer-Lost :
    (me r : ReplicaInfo)
    → IsWritable me
    → ranks_above r me ≡ true
    → answer_election r (c_str (serialize me)) ≡ some (codes "Lost")
unfolding answer_election judge
answer-Lost me r w h =
    rw (c_str-serialize_replica me w, deserialize-serialize_replica me w)
      (rw (ranks_above_asym r me h) (rw (and-false (is_not_me r me)) refl))

-- If every peer answers as its handler does, an election is lost exactly if another replica of the
-- vector has a smaller id.
pub send_election_lem :
    (answer : ℕ → Bytes → Bytes) (me : ReplicaInfo) (v : List (ℕ × ReplicaInfo))
    → IsWritable me
    → Answers answer v
    → (send_election answer me v false).0 ≡ is_outranked me v
unfolding send_election is_outranked
send_election_lem answer me [] w h = refl
send_election_lem answer me ((conn, r) ∷ v) w h =
    elim (Bool-cases (is_not_me me r && ranks_above r me)) [
      | inl e ↦
          let lost =
            h.0 (c_str (serialize me)) (codes "Lost") (answer-Lost me r w (and_right _ _ e)) in
          rw (e, lost, bytes_eq_refl (codes "Lost")) refl
      | inr e ↦ rw e (send_election_lem answer me v w h.1)
    ]

-- The connection leads to the replica, in the vector.
abbrev pub Knows : List (ℕ × ReplicaInfo) → ReplicaInfo → Type 0
Knows [] r = ⊥
Knows ((conn, s) ∷ v) r = (s ≡ r) ⊎ Knows v r

ranks_above-total :
    (a b : ReplicaInfo) → ranks_above a b ≡ false → ranks_above b a ≡ false → a.id ≡ b.id
unfolding ranks_above
ranks_above-total a b h k = ltb_ℤ_total a.id b.id h k

is_not_me_comm : (a b : ReplicaInfo) → is_not_me a b ≡ is_not_me b a
unfolding is_not_me
is_not_me_comm a b = rw (bytes_eq_comm b.ip a.ip, int_eq_comm b.port a.port) refl

not_outranked :
    (me r : ReplicaInfo) (v : List (ℕ × ReplicaInfo))
    → is_outranked me v ≡ false
    → Knows v r
    → is_not_me me r ≡ true
    → ranks_above r me ≡ false
unfolding is_outranked
not_outranked me r [] h k e = absurd k
not_outranked me r ((conn, s) ∷ v) h k e = elim k [
  | inl q ↦
      and_rest (is_not_me me r) (ranks_above r me) e
        (subst (λ t. (is_not_me me t && ranks_above t me) ≡ false) q (or_left _ _ h))
  | inr there ↦ not_outranked me r v (or_right _ _ h) there e
]

-- Two replicas with different addresses that know each other, each by its own id and address, do
-- not both win their elections, unless they have the same id; every peer answers as its handler
-- does.
pub two_winners :
    (answer other : ℕ → Bytes → Bytes) (a b : ReplicaInfo) (va vb : List (ℕ × ReplicaInfo))
    → IsWritable a × IsWritable b
    → Answers answer va × Answers other vb
    → Knows va b × Knows vb a
    → is_not_me a b ≡ true
    → (send_election answer a va false).0 ≡ false
    → (send_election other b vb false).0 ≡ false
    → a.id ≡ b.id
two_winners answer other a b va vb w h k apart wins wins' =
    ranks_above-total a b
      (not_outranked b a vb (sym (send_election_lem other b vb w.1 h.1) ∙ wins') k.1
        (is_not_me_comm b a ∙ apart))
      (not_outranked a b va (sym (send_election_lem answer a va w.0 h.0) ∙ wins) k.0 apart)
