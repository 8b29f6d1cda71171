-- ===== src/Examples/Wire.antt =====
-- Texts, packets and connections.
use twitter_clone.Prelude.{
  ℕ, zero, suc, ◌≤◌, ◌<◌, ◌≡◌, ◌≢◌, refl, List, [], ◌∷◌, ◌++◌, some, arith, All, Bytes, codes,
  length, pos,
}
use twitter_clone.Text.{split_by_length}
use twitter_clone.Text.Lines.{split_by_length_lem, concat, Fits}
use twitter_clone.Numbers.{print, print_int}
use twitter_clone.Packet.{Packet, body, header, serialize, deserialize, make}
use twitter_clone.Packet.Types.{login, send, type_to_string}
use twitter_clone.Packet.RoundTrip.{IsSendable, deserialize-serialize}
use twitter_clone.Connection.{Socket, Sender, stamp}
use twitter_clone.Connection
use twitter_clone.Connection.Framing.{Receives, AllPayloads, stamped, send_each, receive-send}

split_by_length_example :
    (ps : List Bytes) × (split_by_length 2 (codes "abcde") ≡ some ps)
    × (concat ps ≡ codes "abcde")
    × All (Fits 2) ps
split_by_length_example = split_by_length_lem 2 (codes "abcde") (omega arith)

login_packet : Packet
unfolding make
login_packet = make 7 login (codes "@alice")

login_packet-IsSendable : IsSendable login_packet
unfolding login_packet body header type_to_string print_int print
login_packet-IsSendable = record {
  timestamp_fits = omega arith;
  sequence_fits = omega arith;
  length_fits = omega arith;
  size_fits = omega arith;
  no_nul = omega arith;
}

deserialize-serialize_packet_example : deserialize 9 (serialize login_packet) ≡ some login_packet
deserialize-serialize_packet_example = deserialize-serialize 9 login_packet login_packet-IsSendable

-- A socket whose stream is the list of the bytes to come, handed over one at a time.
abbrev slow_recv : Bytes → ℕ → Bytes × Bytes
slow_recv s zero = ([], s)
slow_recv [] (suc n) = ([], [])
slow_recv (c ∷ s) (suc n) = (c ∷ [], s)

slow_some : (s : Bytes) (n : ℕ) → 0 < n → s ≢ [] → 0 < length (slow_recv s n).0
slow_some s zero h k = elim h [ ]
slow_some [] (suc n) h k = absurd (k refl)
slow_some (c ∷ s) (suc n) h k = omega arith

slow_bound : (s : Bytes) (n : ℕ) → length (slow_recv s n).0 ≤ n
slow_bound s zero = omega arith
slow_bound [] (suc n) = omega arith
slow_bound (c ∷ s) (suc n) = omega arith

slow_next : (s : Bytes) (n : ℕ) → s ≡ (slow_recv s n).0 ++ (slow_recv s n).1
slow_next s zero = refl
slow_next [] (suc n) = refl
slow_next (c ∷ s) (suc n) = refl

abbrev slow_socket : Socket
slow_socket = record {
  Stream = Bytes;
  pending = λ s. s;
  recv = slow_recv;
  recv_some = slow_some;
  recv_bound = slow_bound;
  recv_next = slow_next;
}

new_sender : Sender
new_sender = record { sequence_number = pos 5; sent = [] }

two_packets : List Packet
unfolding login_packet make
two_packets = login_packet ∷ make 7 send (codes "hi") ∷ []

two_packets-AllPayloads : AllPayloads 8 new_sender two_packets
unfolding two_packets new_sender stamp Connection.send body header type_to_string print_int print
two_packets-AllPayloads = omega arith

receive-send_example :
    Receives slow_socket 9
      ((send_each 8 new_sender two_packets).sent ++ codes "0")
      (stamped 8 new_sender two_packets)
      (codes "0")
receive-send_example =
    receive-send slow_socket 9 8 new_sender two_packets
      ((send_each 8 new_sender two_packets).sent ++ codes "0") (codes "0") two_packets-AllPayloads
      (unfold new_sender in refl) refl
