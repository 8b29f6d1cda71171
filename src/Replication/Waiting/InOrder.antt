-- ===== src/Replication/Waiting/InOrder.antt =====
-- Answers that are handled while the thread waits for them.
use twitter_clone.Prelude.{
  ℕ, ◌≡◌, refl, sym, ◌∙◌, ap, Bool, true, false, List, [], ◌∷◌, ◌++◌, ◌&&◌, Bytes, Bool-cases, inl,
  inr, append-nil, append_assoc, if◌then◌else◌,
}
use twitter_clone.Replication.{ReplicaInfo, is_not_me, ranks_above}
use twitter_clone.Replication.Manager.{Message, is_lost, send_election}
use twitter_clone.Replication.Waiting.{
  asking, over, Event, proceeds, answers, wakes, ask, proceed, handle_answer, run,
}

-- Every answer comes while the thread waits for it.
abbrev pub in_order : (ℕ → Bytes → Bytes) → ReplicaInfo → List (ℕ × ReplicaInfo) → List Event
in_order answer me [] = proceeds ∷ []
in_order answer me ((conn, r) ∷ v) =
    let rest = in_order answer me v in
    if is_not_me me r && ranks_above r me
    then proceeds ∷ proceeds ∷ answers (answer conn (ask me conn).payload) ∷ proceeds ∷ rest
    else proceeds ∷ rest

ended :
    (me : ReplicaInfo) (sent : List Message) (xs : List Event)
    → run me xs (record { pc = over; lost = true; sent = sent })
      ≡ record { pc = over; lost = true; sent = sent }
unfolding run proceed handle_answer
ended me sent [] = refl
ended me sent (proceeds ∷ xs) = ended me sent xs
ended me sent (answers text ∷ xs) = ended me sent xs
ended me sent (wakes ∷ xs) = ended me sent xs

-- One replica that is asked, and its answer.
answered_run :
    (me r : ReplicaInfo) (conn : ℕ) (v : List (ℕ × ReplicaInfo)) (lost : Bool) (sent : List Message)
    (a : Bytes) (xs : List Event)
    → (is_not_me me r && ranks_above r me) ≡ true
    → let later = sent ++ ask me conn ∷ [] in
      run me
        (proceeds ∷ proceeds ∷ answers a ∷ proceeds ∷ xs)
        (record { pc = asking ((conn, r) ∷ v); lost = lost; sent = sent })
      ≡ run me xs (
          if is_lost lost a
          then record { pc = over; lost = is_lost lost a; sent = later }
          else record { pc = asking v; lost = is_lost lost a; sent = later })
unfolding run proceed handle_answer
answered_run me r conn v lost sent a xs e = rw e refl

skipped_run :
    (me r : ReplicaInfo) (conn : ℕ) (v : List (ℕ × ReplicaInfo)) (lost : Bool) (sent : List Message)
    (xs : List Event)
    → (is_not_me me r && ranks_above r me) ≡ false
    → run me (proceeds ∷ xs) (record { pc = asking ((conn, r) ∷ v); lost = lost; sent = sent })
      ≡ run me xs (record { pc = asking v; lost = lost; sent = sent })
unfolding run proceed
skipped_run me r conn v lost sent xs e = rw e refl

-- Where every answer is handled while the thread waits for it, the election ends, with the outcome
-- and the packets of the loop that takes each answer as its send's result.
pub in_order_lem :
    (answer : ℕ → Bytes → Bytes) (me : ReplicaInfo) (v : List (ℕ × ReplicaInfo)) (lost : Bool)
    (sent : List Message)
    → let (outcome, messages) = send_election answer me v lost in
      run me (in_order answer me v) (record { pc = asking v; lost = lost; sent = sent })
      ≡ record { pc = over; lost = outcome; sent = sent ++ messages }
unfolding run proceed handle_answer send_election
in_order_lem answer me [] lost sent =
    ap (λ l. record { pc = over; lost = lost; sent = l }) (sym (append-nil sent))
in_order_lem answer me ((conn, r) ∷ v) lost sent =
    elim (Bool-cases (is_not_me me r && ranks_above r me)) [
      | inr e ↦ rw e (
          skipped_run me r conn v lost sent (in_order answer me v) e
          ∙ in_order_lem answer me v lost sent)
      | inl e ↦
          let a = answer conn (ask me conn).payload in
          let later = sent ++ ask me conn ∷ [] in
          elim (Bool-cases (is_lost lost a)) [
            | inl k ↦ rw e (
                answered_run me r conn v lost sent a (in_order answer me v) e
                ∙ rw k (ended me later (in_order answer me v)))
            | inr k ↦ rw e (
                answered_run me r conn v lost sent a (in_order answer me v) e
                ∙ rw k (
                    in_order_lem answer me v false later
                    ∙ ap
                        (λ l. record {
                          pc = over;
                          lost = (send_election answer me v false).0;
                          sent = l;
                        })
                        (append_assoc sent (ask me conn ∷ []) (send_election answer me v false).1)))
          ]
    ]
