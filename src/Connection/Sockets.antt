-- ===== src/Connection/Sockets.antt =====
-- The rest of src/lib/socket/TCPConnection.cpp, and src/lib/socket/TCPServer.cpp and TCPClient.cpp. What
-- the system calls give is an argument of each function.
use twitter_clone.Prelude.{
  ℕ, ◌+◌, ◌%◌, ◌≤◌, ◌≡◌, refl, sym, ap, ◌∙◌, Bool, true, false, ◌&&◌, List, [], ◌∷◌, ◌++◌, Option,
  none, some, ltb, if◌then◌else◌, length, take, drop, arith, Bool-cases, inl, inr, append-nil,
  take-append-drop, drop_prefix, length-take-le, ltb_ℤ, to_unsigned, Bytes, ℤ, pos,
}
use twitter_clone.Packet.{Packet}
use twitter_clone.Connection.{Socket, Received, lost, receive}

-- The socket, its peer, whether close was called, the bytes that breakPayload keeps, and how often
-- ::close was called.
pub record TcpConnection : Type 0 where
  pub socket : ℕ
  pub ip : Bytes
  pub port : ℕ
  pub is_closed : Bool
  pub sequence_number : ℤ
  pub buffer : Bytes
  pub closes : ℕ

-- TCPConnection(), with a random number.
unfoldable pub new_connection : ℕ → ℕ → Bytes → ℕ → TcpConnection
new_connection random socket ip port = record {
  socket = socket;
  ip = ip;
  port = port;
  is_closed = false;
  sequence_number = pos (random % 16384);
  buffer = [];
  closes = 0;
}

unfoldable pub close : TcpConnection → TcpConnection
close c = record c { is_closed = true; closes = c.closes + 1 }

-- ~TCPConnection(): also where close was called before.
unfoldable pub destroy : TcpConnection → TcpConnection
destroy c = close c

-- breakPayload: the bytes behind the length of the packet go to the buffer.
abbrev cut_at : ℕ → TcpConnection → Packet → TcpConnection × Packet
cut_at n c p =
    (record c { buffer = c.buffer ++ drop n p.payload }, record p { payload = take n p.payload })

unfoldable pub break_payload : TcpConnection → Packet → TcpConnection × Packet
break_payload c p =
    let n = to_unsigned p.length in if ltb n (length p.payload) then cut_at n c p else (c, p)

module _ (k : Socket) where
  open k use {Stream}

  abbrev receive_if : Bool → ℕ → Stream → Received × Stream
  receive_if true now s = receive k now s
  receive_if false now s = (lost, s)

  -- receive with a timeout: whether select reports the socket in that time is `ready`.
  unfoldable pub receive_within : Bool → ℤ → ℕ → Stream → Received × Stream
  receive_within ready timeout now s =
      if ltb_ℤ (pos 0) timeout then receive_if ready now s else receive k now s

-- TCPServer: the listening socket, which is 0 at first, whether it listens, and its address.
pub record TcpServer : Type 0 where
  pub listening_socket : ℕ
  pub listening : Bool
  pub ip : Bytes
  pub port : ℕ

unfoldable pub new_server : Bytes → ℕ → TcpServer
new_server ip port = record { listening_socket = 0; listening = false; ip = ip; port = port }

-- start, with the socket that is created, and whether bind and listen succeed.
unfoldable pub start : ℕ → Bool → Bool → TcpServer → Bool × TcpServer
start socket bound listens s =
    if s.listening
    then (false, s)
    else (bound && listens, record s { listening_socket = socket; listening = bound && listens })

-- What ::accept gives: a socket and its peer, or an error.
abbrev pub connection_of : ℕ → Option (ℕ × Bytes × ℕ) → Option TcpConnection
connection_of random none = none
connection_of random (some (socket, ip, port)) = some (new_connection random socket ip port)

unfoldable pub accept : ℕ → Option (ℕ × Bytes × ℕ) → TcpServer → Option TcpConnection
accept random got s = if s.listening then connection_of random got else none

-- accept with a timeout: whether select reports the socket in that time is `ready`.
unfoldable pub accept_within : ℕ → Bool → Option (ℕ × Bytes × ℕ) → TcpServer → Option TcpConnection
accept_within random ready got s =
    if s.listening then (if ready then connection_of random got else none) else none

-- ~TCPServer(): the sockets that are closed.
unfoldable pub destroy_server : TcpServer → List ℕ
destroy_server s = if ltb 0 s.listening_socket then s.listening_socket ∷ [] else []

-- TCPClient::connect, with the socket that is created and whether ::connect succeeds.
unfoldable pub connect : ℕ → ℕ → Bool → Bytes → ℕ → Option TcpConnection
connect random socket connected ip port =
    if connected then some (new_connection random socket ip port) else none

-- breakPayload keeps every byte, and leaves a payload that is not longer than the length says.
break_payload_lem :
    (c : TcpConnection) (p : Packet)
    → let (c', p') = break_payload c p in
      (p'.payload ++ drop (length c.buffer) c'.buffer ≡ p.payload)
      × (length p'.payload ≤ to_unsigned p.length)
unfolding break_payload
break_payload_lem c p =
    let n = to_unsigned p.length in
    elim (Bool-cases (ltb (to_unsigned p.length) (length p.payload))) [
      | inl e ↦ rw e (
        ap (λ t. take n p.payload ++ t) (drop_prefix c.buffer (drop n p.payload))
            ∙ take-append-drop n p.payload,
        length-take-le n p.payload,
      )
      | inr e ↦ rw e (
        ap (λ t. p.payload ++ t)
              (ap (λ b. drop (length c.buffer) b) (sym (append-nil c.buffer))
                ∙ drop_prefix c.buffer [])
            ∙ append-nil p.payload,
        ground (arith, e),
      )
    ]

-- A server that has started gives what is accepted, and does not start again; one that has not gives
-- nothing.
start_lem :
    (socket random : ℕ) (bound listens : Bool) (ip : Bytes) (port : ℕ)
    (got : Option (ℕ × Bytes × ℕ))
    → let (started, s) = start socket bound listens (new_server ip port) in
      (accept random got s ≡ (if started then connection_of random got else none))
      × (started ≡ true → start socket bound listens s ≡ (false, s))
unfolding start accept new_server
start_lem socket random true true ip port got = (refl, λ e. refl)
start_lem socket random true false ip port got = (refl, λ e. absurd cc)
start_lem socket random false listens ip port got = (refl, λ e. absurd cc)
