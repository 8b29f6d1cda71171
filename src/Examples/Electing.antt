-- ===== src/Examples/Electing.antt =====
-- The end of an election.
use twitter_clone.Prelude.{
  ℕ, ◌++◌, ◌&&◌, refl, codes, bytes_eq, ◌≡◌, ◌==◌, true, false, [], ◌∷◌, none, some, if◌then◌else◌,
}
use twitter_clone.Replication.Manager.{remove_closed, remove_closed_connections}
use twitter_clone.Replication.Running.{Replica, Round, elect}
use twitter_clone.Replication.Wire.{IsWritable}
use twitter_clone.Replication.Election.{Answers, is_outranked}
use twitter_clone.Replication.Leader.{Leads, elect_lem}
use twitter_clone.Replication.{is_not_me, ranks_above}
use twitter_clone.Replication.Manager.{send_election}
use twitter_clone.Replication.Waiting.{asking, waiting, over, proceeds, answers, wakes, ask, run}
use twitter_clone.Replication.Waiting.LostAnswer.{times, onward, lost_answer}
use twitter_clone.Replication.Waiting.InOrder.{in_order, in_order_lem}
use twitter_clone.Examples.Replicas.{leader, first, second, peer, peer-Answers, first-IsWritable}

abbrev left_alone : Replica
left_alone = record {
  manager = record leader {
    info = first;
    is_leader = false;
    replicas_vector = (7, second) ∷ (8, first) ∷ [];
    sent = [];
  };
  leader_conn = some 3;
  servers = 0;
  notices = [];
}

abbrev last_round : Round
last_round = record {
  to_leader = none;
  state = none;
  to_replica = λ r. none;
  accepted = [];
  is_closed = λ conn. conn == 8;
  answer = peer second;
  to_frontend = λ a. if a.port == 6666 then some 9 else none;
}

info-IsWritable :
    IsWritable (remove_closed_connections last_round.is_closed left_alone.manager).info
unfolding remove_closed_connections
info-IsWritable = first-IsWritable

others-Answers :
    Answers
      (peer second)
      (remove_closed_connections last_round.is_closed left_alone.manager).replicas_vector
unfolding remove_closed_connections remove_closed
others-Answers = peer-Answers second

elect_example :
    let m = remove_closed_connections last_round.is_closed left_alone.manager in
    let x' = elect last_round left_alone in
    (is_outranked m.info m.replicas_vector ≡ true
      → (x'.manager.is_leader ≡ false) × (x'.leader_conn ≡ some 3) × (x'.notices ≡ []))
    × (is_outranked m.info m.replicas_vector ≡ false → Leads last_round m left_alone x')
elect_example = elect_lem last_round left_alone info-IsWritable others-Answers

first_is_asked : (is_not_me leader.info first && ranks_above first leader.info) ≡ true
unfolding is_not_me ranks_above bytes_eq
first_is_asked = refl

lost_answer_example :
    let e =
      run leader.info
        (proceeds ∷ [])
        (record { pc = asking ((4, first) ∷ []); lost = false; sent = [] }) in
    let lost = bytes_eq (codes "Lost") (codes "Lost") in
    let later = [] ++ ask leader.info 4 ∷ [] in
    ((n : ℕ)
      → (run leader.info (answers (codes "Lost") ∷ proceeds ∷ (times n ++ [])) e
          ≡ record { pc = waiting []; lost = lost; sent = later })
        × (run leader.info
              (answers (codes "Lost") ∷ proceeds ∷ (times n ++ wakes ∷ proceeds ∷ []))
              e
            ≡ record { pc = onward lost []; lost = lost; sent = later }))
    × (run leader.info (proceeds ∷ answers (codes "Lost") ∷ proceeds ∷ []) e
        ≡ record { pc = onward lost []; lost = lost; sent = later })
lost_answer_example = lost_answer leader.info first 4 [] [] (codes "Lost") first_is_asked

in_order_example :
    let (outcome, messages) =
      send_election (λ conn payload. codes "Won") leader.info leader.replicas_vector false in
    run leader.info
      (in_order (λ conn payload. codes "Won") leader.info leader.replicas_vector)
      (record { pc = asking leader.replicas_vector; lost = false; sent = [] })
    ≡ record { pc = over; lost = outcome; sent = [] ++ messages }
in_order_example =
    in_order_lem (λ conn payload. codes "Won") leader.info leader.replicas_vector false []
