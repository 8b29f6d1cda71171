-- ===== src/Replication/Waiting/LostAnswer.antt =====
-- An ANSWER that is handled before the wait begins.
use twitter_clone.Prelude.{
  ℕ, zero, if◌then◌else◌, ◌∙◌, Bool-cases, inl, inr, suc, ◌≡◌, refl, Bool, true, false, List, [],
  ◌∷◌, ◌++◌, ◌&&◌, Bytes, bytes_eq, codes,
}
use twitter_clone.Replication.{ReplicaInfo, is_not_me, ranks_above}
use twitter_clone.Replication.Manager.{Message}
use twitter_clone.Replication.Waiting.{
  asking, asked, waiting, over, Event, ElectionPc, proceeds, answers, wakes, ask, proceed,
  handle_answer, run,
}

-- The thread goes on as often as it can.
abbrev pub times : ℕ → List Event
times zero = []
times (suc n) = proceeds ∷ times n

stuck :
    (me : ReplicaInfo) (v : List (ℕ × ReplicaInfo)) (lost : Bool) (sent : List Message) (n : ℕ)
    (xs : List Event)
    → run me (times n ++ xs) (record { pc = waiting v; lost = lost; sent = sent })
      ≡ run me xs (record { pc = waiting v; lost = lost; sent = sent })
unfolding run proceed
stuck me v lost sent zero xs = refl
stuck me v lost sent (suc n) xs = stuck me v lost sent n xs

-- Behind wait, as lostElection says.
abbrev pub onward : Bool → List (ℕ × ReplicaInfo) → ElectionPc
onward lost v = if lost then over else asking v

woken_up :
    (me : ReplicaInfo) (v : List (ℕ × ReplicaInfo)) (lost : Bool) (sent : List Message)
    → run me (wakes ∷ proceeds ∷ []) (record { pc = waiting v; lost = lost; sent = sent })
      ≡ record { pc = onward lost v; lost = lost; sent = sent }
unfolding run proceed
woken_up me v true sent = refl
woken_up me v false sent = refl

answered :
    (me : ReplicaInfo) (v : List (ℕ × ReplicaInfo)) (text : Bytes) (sent : List Message)
    → run me
        (proceeds ∷ answers text ∷ proceeds ∷ [])
        (record { pc = asked v; lost = false; sent = sent })
      ≡ record {
        pc = onward (bytes_eq text (codes "Lost")) v;
        lost = bytes_eq text (codes "Lost");
        sent = sent;
      }
unfolding run proceed handle_answer
answered me v text sent = elim (Bool-cases (bytes_eq text (codes "Lost"))) [
  | inl e ↦ rw e refl
  | inr e ↦ rw e refl
]

-- Where a replica with a smaller id has just been sent an ELECTION: if its ANSWER is handled
-- before the thread waits for it, the thread stays in wait and sends nothing more, also where the
-- answer says that the election is lost, until something else wakes it; if wait then returns by
-- itself, the thread does what that answer says. If the ANSWER is handled while the thread waits,
-- it ends the loop where it says that the election is lost, and else lets it go on with the next
-- replica.
pub lost_answer :
    (me r : ReplicaInfo) (conn : ℕ) (v : List (ℕ × ReplicaInfo)) (sent : List Message)
    (text : Bytes)
    → (is_not_me me r && ranks_above r me) ≡ true
    → let e =
        run me
          (proceeds ∷ [])
          (record { pc = asking ((conn, r) ∷ v); lost = false; sent = sent }) in
      let lost = bytes_eq text (codes "Lost") in
      let later = sent ++ ask me conn ∷ [] in
      ((n : ℕ)
        → (run me (answers text ∷ proceeds ∷ (times n ++ [])) e
            ≡ record { pc = waiting v; lost = lost; sent = later })
          × (run me (answers text ∷ proceeds ∷ (times n ++ wakes ∷ proceeds ∷ [])) e
              ≡ record { pc = onward lost v; lost = lost; sent = later }))
      × (run me (proceeds ∷ answers text ∷ proceeds ∷ []) e
          ≡ record { pc = onward lost v; lost = lost; sent = later })
unfolding run proceed handle_answer
lost_answer me r conn v sent text asks =
    let lost = bytes_eq text (codes "Lost") in
    let later = sent ++ ask me conn ∷ [] in
    rw asks (
      λ n. (
        stuck me v lost later n [],
        stuck me v lost later n (wakes ∷ proceeds ∷ []) ∙ woken_up me v lost later,
      ),
      answered me v text later,
    )
