-- ===== src/Examples/Datagrams.antt =====
-- A datagram that is acknowledged in the second round.
use twitter_clone.Prelude.{
  ℕ, ◌+◌, ◌≤◌, ◌<◌, ◌≡◌, ◌==◌, true, false, some, none, pos, if◌then◌else◌, codes, [],
}
use twitter_clone.Packet.{make, serialize}
use twitter_clone.Packet.Types.{ack}
use twitter_clone.Connection.Datagrams.{Round, returned, receive_from, send_to, send_tries}
use twitter_clone.Connection.Datagrams.Retries.{Sends, IsAck, Unanswered, send_to_lem}

abbrev second_time : ℕ → Round
second_time k = record {
  sent = pos 10;
  answer = if k == 0 then none else some (serialize (make 7 ack []), codes "10.0.0.1", 9);
}

send_to_example :
    ((send_to 8 true second_time).1 ≤ send_tries)
    × ((j : ℕ)
        → j < send_tries
        → Unanswered 8 second_time 0 j
        → Sends (second_time j)
        → IsAck (receive_from 8 (second_time j).answer)
        → send_to 8 true second_time ≡ (returned true, j + 1))
    × (Unanswered 8 second_time 0 send_tries
        → send_to 8 true second_time ≡ (returned false, send_tries))
send_to_example = send_to_lem 8 second_time
