-- ===== src/Replication/Waiting.antt =====
-- src/server/replication/ReplicaManager.cpp, sendElection, beside the threads of the connections,
-- src/server/replication/rm/ReplicaHandler.cpp: the condition variable has neither a predicate nor a
-- timeout, so what happens depends on whether an ANSWER is handled before or after the wait begins.
pub mod LostAnswer
pub mod InOrder
use twitter_clone.Prelude.{ℕ, Bool, List, [], ◌∷◌, ◌++◌, ◌&&◌, if◌then◌else◌, Bytes}
use twitter_clone.Packet.Types.{election}
use twitter_clone.Replication.{ReplicaInfo, serialize, is_not_me, ranks_above}
use twitter_clone.Replication.Manager.{Message, message, is_lost}

-- Where the thread of sendElection stands, with the replicas that are left: at the head of its loop,
-- behind the send, in wait, behind wait, or behind the loop.
pub data ElectionPc : Type 0 where
  asking asked waiting woken : List (ℕ × ReplicaInfo) → ElectionPc
  over : ElectionPc

-- The thread, lostElection, and what was sent.
pub record Election : Type 0 where
  pub pc : ElectionPc
  pub lost : Bool
  pub sent : List Message

pub data Event : Type 0 where
  -- The thread of sendElection goes on, if it can.
  proceeds : Event
  -- A ReplicaHandler handles an ANSWER with this text.
  answers : Bytes → Event
  -- wait returns although nobody has called notify_one.
  wakes : Event

abbrev pub ask : ReplicaInfo → ℕ → Message
ask me conn = message conn election (serialize me)

unfoldable pub proceed : ReplicaInfo → ElectionPc → Election → Election
proceed me (asking []) e = record e { pc = over }
proceed me (asking ((conn, r) ∷ v)) e =
    if is_not_me me r && ranks_above r me
    then record e { pc = asked v; sent = e.sent ++ ask me conn ∷ [] }
    else record e { pc = asking v }
proceed me (asked v) e = record e { pc = waiting v }
proceed me (waiting v) e = e
proceed me (woken v) e = if e.lost then record e { pc = over } else record e { pc = asking v }
proceed me over e = e

-- notify_one.
abbrev pub notify : ElectionPc → ElectionPc
notify (waiting v) = woken v
notify (asking v) = asking v
notify (asked v) = asked v
notify (woken v) = woken v
notify over = over

unfoldable pub handle_answer : Bytes → Election → Election
handle_answer text e = record e { pc = notify e.pc; lost = is_lost e.lost text }

abbrev pub step : ReplicaInfo → Event → Election → Election
step me proceeds e = proceed me e.pc e
step me (answers text) e = handle_answer text e
step me wakes e = record e { pc = notify e.pc }

unfoldable pub run : ReplicaInfo → List Event → Election → Election
run me [] e = e
run me (x ∷ xs) e = run me xs (step me x e)
