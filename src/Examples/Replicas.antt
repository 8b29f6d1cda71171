-- ===== src/Examples/Replicas.antt =====
-- Replicas, their handshake and their elections.
use twitter_clone.Prelude.{
  ℕ, ◌≡◌, refl, true, false, List, [], ◌∷◌, ◌++◌, Option, none, some, arith, Bytes, codes, pos,
  bytes_eq, inl, All,
}
use twitter_clone.Packet.Types.{new_replica, replicas}
use twitter_clone.Replication.{ReplicaInfo, is_valid, is_not_me, ranks_above, receive_state}
use twitter_clone.Replication.Manager.{
  ReplicaManager, Message, send_election, send_hello, answer_hello, answer_start_handshake,
  extract_second,
}
use twitter_clone.Replication.Handler.{answer_election}
use twitter_clone.Replication.Wire.{IsWritable}
use twitter_clone.Replication.Handshake.{IsNumbered, answer_hello-IsNumbered, handshake_lem}
use twitter_clone.Replication.Election.{Answers, two_winners}

abbrev pub first : ReplicaInfo
first = record { id = pos 0; ip = codes "a"; port = pos 1 }

abbrev pub second : ReplicaInfo
second = record { id = pos 0; ip = codes "b"; port = pos 2 }

pub first-IsWritable : IsWritable first
first-IsWritable = record {
  id_fits = omega arith;
  port_fits = omega arith;
  one_word = omega arith;
  one_line = omega arith;
  no_nul = omega arith;
}

second-IsWritable : IsWritable second
second-IsWritable = record {
  id_fits = omega arith;
  port_fits = omega arith;
  one_word = omega arith;
  one_line = omega arith;
  no_nul = omega arith;
}

abbrev pub leader : ReplicaManager
leader = record {
  info = record { id = pos 9; ip = codes "l"; port = pos 3 };
  is_leader = true;
  profiles = record { users = []; file = none; updates = [] };
  notifications = record {
    next_id = 1;
    notifications = [];
    pending_queues = [];
    inboxes = λ address. [];
    updates = 0;
  };
  replicas_vector = (4, first) ∷ [];
  sent = [];
}

second-is_valid : is_valid second ≡ true
unfolding is_valid
second-is_valid = refl

known-IsWritable : All IsWritable (extract_second leader.replicas_vector)
unfolding extract_second
known-IsWritable = (first-IsWritable, tt)

answer_hello_example : IsNumbered 0 (answer_hello 5 second leader).replicas_vector
answer_hello_example = answer_hello-IsNumbered 5 second leader refl (omega arith) (refl, tt)

handshake_example :
    (m' : ReplicaManager) × (state : Message) × (more : List Message) × (answer_start_handshake 5
        (some (new_replica, (send_hello 6 second).payload))
        leader
      ≡ some m')
    × (m'.replicas_vector ≡ ((4, first) ∷ []) ++ (5, record second { id = pos 1 }) ∷ [])
    × (m'.sent ≡ [] ++ state ∷ more)
    × (state.conn ≡ 5)
    × (state.type ≡ replicas)
    × (receive_state second state.payload
        ≡ some (record second { id = pos 1 }, extract_second ((4, first) ∷ [])))
handshake_example =
    handshake_lem 5 6 second leader refl second-IsWritable second-is_valid known-IsWritable
      (omega arith)

abbrev pub or_empty : Option Bytes → Bytes
or_empty none = []
or_empty (some a) = a

-- The peer's handler.
abbrev pub peer : ReplicaInfo → ℕ → Bytes → Bytes
peer r conn payload = or_empty (answer_election r payload)

pub peer-Answers : (r : ReplicaInfo) → Answers (peer r) ((7, r) ∷ [])
peer-Answers r = ((λ payload a e. rw e refl), tt)

-- `first` and `second` have the same id, and both win.
first_wins : (send_election (peer second) first ((7, second) ∷ []) false).0 ≡ false
unfolding send_election is_not_me ranks_above bytes_eq
first_wins = refl

second_wins : (send_election (peer first) second ((7, first) ∷ []) false).0 ≡ false
unfolding send_election is_not_me ranks_above bytes_eq
second_wins = refl

apart : is_not_me first second ≡ true
unfolding is_not_me bytes_eq
apart = refl

two_winners_example : first.id ≡ second.id
two_winners_example =
    two_winners (peer second) (peer first) first second ((7, second) ∷ []) ((7, first) ∷ [])
      (first-IsWritable, second-IsWritable) (peer-Answers second, peer-Answers first)
      (inl refl, inl refl) apart first_wins second_wins
