-- ===== src/Connection/Datagrams.antt =====
-- src/lib/socket/UDPSocket.cpp: packets as datagrams, with an acknowledgement. What the system calls
-- give is an argument of each function.
pub mod Retries
use twitter_clone.Prelude.{
  ℕ, zero, suc, ◌+◌, Bool, true, false, List, [], ◌∷◌, Option, none, some, if◌then◌else◌, ◌==◌,
  length, Bytes, ℤ, pos, negsuc, ltb_ℤ, ltb,
}
use twitter_clone.Packet.{Packet, deserialize, c_str, serialize}
use twitter_clone.Packet.Types.{PacketType, ack}
use twitter_clone.Connection.{Received, lost, undefined, packet, thrown, parsed}

pub record UdpSocket : Type 0 where
  pub socket_descriptor : ℤ
  pub ip : Bytes
  pub port : ℤ

abbrev pub send_tries : ℕ
send_tries = 3

abbrev pub recv_buffer_size : ℕ
recv_buffer_size = 400

-- With the descriptor that ::socket gives; none is NULL.
unfoldable pub create : ℤ → Option UdpSocket
create socket_descr =
    if ltb_ℤ socket_descr (pos 0)
    then none
    else some (record { socket_descriptor = socket_descr; ip = []; port = negsuc 0 })

-- With the status of ::bind. The address is kept also where it fails.
unfoldable pub bind : ℤ → Bytes → ℤ → UdpSocket → UdpSocket × Bool
bind (pos zero) ip port s = (record s { ip = ip; port = port }, true)
bind status ip port s = (record s { ip = ip; port = port }, false)

-- A datagram with its sender, or none on an error or after the timeout.
abbrev pub Datagram : Type 0
Datagram = Bytes × Bytes × ℕ

-- receiveFrom: the final NUL of a datagram that fills the buffer is written behind it.
unfoldable pub receive_from : ℕ → Option Datagram → Received
receive_from now none = lost
receive_from now (some (bytes, ip, port)) =
    if length bytes == 0
    then lost
    else if length bytes == recv_buffer_size
    then undefined
    else parsed (deserialize now bytes)

-- What ::sendto gives, and what is received behind it.
pub record Round : Type 0 where
  pub sent : ℤ
  pub answer : Option Datagram

-- What sendTo returns, unless its behaviour is undefined.
pub data Outcome : Type 0 where
  returned : Bool → Outcome
  no_outcome : Outcome

abbrev pub is_ack : PacketType → Bool
is_ack ack = true
is_ack _ = false

-- The outcome and the number of datagrams, where `later` are those of the next rounds.
abbrev pub after_answer : Received → Outcome × ℕ → Outcome × ℕ
after_answer (packet p) later = if is_ack p.type then (returned true, 1) else (later.0, later.1 + 1)
after_answer lost later = (later.0, later.1 + 1)
after_answer undefined later = (no_outcome, 1)
after_answer thrown later = (no_outcome, 1)

-- The rounds that are left, from round `k` on.
unfoldable pub send_rounds : ℕ → ℕ → ℕ → (ℕ → Round) → Outcome × ℕ
send_rounds now zero k rounds = (returned false, 0)
send_rounds now (suc n) k rounds =
    let later = send_rounds now n (k + 1) rounds in
    if ltb_ℤ (rounds k).sent (pos 0)
    then (returned false, 0)
    else after_answer (receive_from now (rounds k).answer) later

-- sendTo, with `wait` and without.
unfoldable pub send_to : ℕ → Bool → (ℕ → Round) → Outcome × ℕ
send_to now true rounds = send_rounds now send_tries 0 rounds
send_to now false rounds =
    if ltb_ℤ (pos 0) (rounds 0).sent then (returned true, 1) else (returned false, 0)
