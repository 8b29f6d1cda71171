-- ===== src/Connection.antt =====
-- src/lib/socket/TCPConnection: packets over a byte stream. The socket is the operating system's:
-- it is a parameter, with the documented behaviour of recv as its laws.
pub mod Receive
pub mod Framing
pub mod Sockets
pub mod Datagrams
use twitter_clone.Prelude.{
  ℕ, zero, suc, ◌+◌, ◌-◌, ◌≤◌, ◌<◌, ◌≡◌, ◌≢◌, Bool, true, false, List, [], ◌∷◌, ◌++◌, Option, none,
  some, ◌==◌, if◌then◌else◌, length, Bytes, ℤ, pos, negsuc, to_int, sub_ℕ, pos_part, neg_part,
}
use twitter_clone.Numbers.{stoul}
use twitter_clone.Packet.{Packet, serialize, deserialize, c_str, size_field_length}

pub record Socket : Type 1 where
  pub Stream : Type 0
  -- The bytes that are still to arrive before the peer closes.
  pub pending : Stream → Bytes
  -- recv with the given length: the bytes received, none of them at the end or on an error.
  pub recv : Stream → ℕ → Bytes × Stream
  -- recv blocks until there is a byte, and hands over at most as many as it is asked for.
  pub recv_some : (s : Stream) (n : ℕ) → 0 < n → pending s ≢ [] → 0 < length (recv s n).0
  pub recv_bound : (s : Stream) (n : ℕ) → length (recv s n).0 ≤ n
  -- What it hands over is what comes next in the stream.
  pub recv_next : (s : Stream) (n : ℕ) → pending s ≡ (recv s n).0 ++ pending (recv s n).1

pub data Received : Type 0 where
  -- NULL: the connection was closed or lost.
  lost : Received
  -- std::stoul throws.
  thrown : Received
  -- A negative size for the buffer, or an overflow of the buffer for the type.
  undefined : Received
  packet : Packet → Received

abbrev pub parsed : Option Packet → Received
parsed none = undefined
parsed (some p) = packet p

module _ (k : Socket) where
  open k use {Stream, recv}

  -- The loop of receiveAll: `curr_length` bytes are missing behind `buffer`. Each round receives
  -- a byte or ends, so the number of missing bytes bounds the rounds.
  unfoldable pub receive_loop : ℕ → ℕ → Bytes → Stream → Option Bytes × Stream
  receive_loop fuel zero buffer s = (some buffer, s)
  receive_loop zero (suc n) buffer s = (none, s)
  receive_loop (suc fuel) (suc n) buffer s =
      let got = (recv s (suc n)).0 in
      let s' = (recv s (suc n)).1 in
      let rest = receive_loop fuel (suc n - length got) (buffer ++ got) s' in
      if length got == 0 then (none, s') else rest

  abbrev map_c_str : Option Bytes × Stream → Option Bytes × Stream
  map_c_str (none, s) = (none, s)
  map_c_str (some b, s) = (some (c_str b), s)

  unfoldable pub receive_all : Stream → ℕ → Option Bytes × Stream
  receive_all s n = map_c_str (receive_loop n n [] s)

  abbrev parse : ℕ → Bytes → Option Bytes × Stream → Received × Stream
  parse now size_str (none, s) = (lost, s)
  parse now size_str (some packet_str, s) = (parsed (deserialize now (size_str ++ packet_str)), s)

  -- `int size`.
  abbrev receive_sized : ℕ → Bytes → ℤ → Stream → Received × Stream
  receive_sized now size_str (pos n) s = parse now size_str (receive_all s n)
  receive_sized now size_str (negsuc n) s = (undefined, s)

  abbrev receive_body : ℕ → Bytes → Option ℕ → Stream → Received × Stream
  receive_body now size_str none s = (thrown, s)
  receive_body now size_str (some size) s = receive_sized now size_str (to_int size) s

  abbrev receive_size : ℕ → Option Bytes × Stream → Received × Stream
  receive_size now (none, s) = (lost, s)
  receive_size now (some size_str, s) = receive_body now size_str (stoul size_str) s

  -- receive, at the time `now`.
  unfoldable pub receive : ℕ → Stream → Received × Stream
  receive now s = receive_size now (receive_all s size_field_length)

-- The sending side: the connection's counter, and the bytes that were passed to ::send.
pub record Sender : Type 0 where
  pub sequence_number : ℤ
  pub sent : Bytes

abbrev pub inc : ℤ → ℤ
inc z = sub_ℕ (pos_part z + 1) (neg_part z)

-- The packet as send(Packet*) stamps it.
unfoldable pub stamp : ℕ → Sender → Packet → Packet
stamp now c p = record p { sequence_number = c.sequence_number; timestamp = now }

unfoldable pub send : ℕ → Sender → Packet → Sender
send now c p = record {
  sequence_number = inc c.sequence_number;
  sent = c.sent ++ serialize (stamp now c p);
}
