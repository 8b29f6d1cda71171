-- ===== src/Connection/Framing.antt =====
-- Packets that are sent back to back are received one by one, in order.
use twitter_clone.Prelude.{
  ℕ, ◌≤◌, ◌%◌, ◌^◌, ◌≡◌, sym, ap, ◌∙◌, List, [], ◌∷◌, ◌++◌, some, arith, length, Bytes, pos,
  int_max, to_int, append_assoc, append-nil,
}
use twitter_clone.Numbers.{print_padded, stoul}
use twitter_clone.Numbers.Digits.{length-print_padded, print_padded-IsDigit}
use twitter_clone.Numbers.RoundTrip.{stoul-print_padded}
use twitter_clone.Packet.{Packet, serialize, deserialize, body, size_field_length}
use twitter_clone.Packet.Header.{body-Lacks, digits-IsVisible, visible-Lacks}
use twitter_clone.Packet.RoundTrip.{IsSendable, deserialize-serialize}
use twitter_clone.Connection.{
  Socket, packet, receive, receive_all, Sender, send, stamp, receive_sized, parsed,
}
use twitter_clone.Connection.Receive.{receive_all_lem}

to_int-small : (n : ℕ) → n ≤ int_max → to_int (n % 2 ^ 32) ≡ pos n
to_int-small n h = ground arith

module _ (k : Socket) where
  open k use {Stream, pending}

  -- The steps of receive, one by one.
  receive_steps :
      (now : ℕ) (s s' s'' : Stream) (size : Bytes) (m n : ℕ) (b : Bytes) (p : Packet)
      → receive_all k s size_field_length ≡ (some size, s')
      → stoul size ≡ some m
      → to_int m ≡ pos n
      → receive_all k s' n ≡ (some b, s'')
      → deserialize now (size ++ b) ≡ some p
      → receive k now s ≡ (packet p, s'')
  unfolding receive
  receive_steps now s s' s'' size m n b p h₁ h₂ h₃ h₄ h₅ =
      rw h₁
        (rw h₂ (ap (λ z. receive_sized k now size z s') h₃ ∙ rw h₄ (ap (λ o. (parsed o, s'')) h₅)))

  -- A packet at the front of the stream, with a size that `int` holds, is received, and the
  -- stream goes on behind it.
  receive-serialize :
      (now : ℕ) (p : Packet) (s : Stream) (rest : Bytes)
      → IsSendable p
      → length (body p) ≤ int_max
      → pending s ≡ serialize p ++ rest
      → (s' : Stream) × (receive k now s ≡ (packet p, s')) × (pending s' ≡ rest)
  unfolding receive serialize
  receive-serialize now p s rest v small e =
      let n = length (body p) in
      let size = print_padded (n % 2 ^ 32) in
      let (s', run, next) =
        receive_all_lem k s size (body p ++ rest) (e ∙ append_assoc size (body p) rest) (
          visible-Lacks 0 size (omega arith)
            (digits-IsVisible size (print_padded-IsDigit (n % 2 ^ 32)))) in
      let (s'', run', next') = receive_all_lem k s' (body p) rest next (body-Lacks p v.no_nul) in
      (
        s'',
        receive_steps now s s' s'' size (n % 2 ^ 32) n (body p) p
            (rw (← length-print_padded (n % 2 ^ 32) (omega arith)) run)
            (stoul-print_padded (n % 2 ^ 32) (omega arith)) (to_int-small n small) run'
            (deserialize-serialize now p v),
        next',
      )

-- What a sender may be handed: numbers that fit, and a payload without NUL.
pub record IsPayload (now : ℕ) (c : Sender) (p : Packet) : Type 0 where
  pub sendable : IsSendable (stamp now c p)
  pub small : length (body (stamp now c p)) ≤ int_max

-- Sends a list of packets at one time, and the packets as they were stamped.
abbrev pub send_each : ℕ → Sender → List Packet → Sender
send_each now c [] = c
send_each now c (p ∷ ps) = send_each now (send now c p) ps

abbrev pub stamped : ℕ → Sender → List Packet → List Packet
stamped now c [] = []
stamped now c (p ∷ ps) = stamp now c p ∷ stamped now (send now c p) ps

abbrev pub AllPayloads : ℕ → Sender → List Packet → Type 0
AllPayloads now c [] = Unit
AllPayloads now c (p ∷ ps) = IsPayload now c p × AllPayloads now (send now c p) ps

-- The bytes of the packets, one after the other.
abbrev wire : List Packet → Bytes
wire [] = []
wire (p ∷ ps) = serialize p ++ wire ps

send_each-sent :
    (now : ℕ) (c : Sender) (ps : List Packet)
    → (send_each now c ps).sent ≡ c.sent ++ wire (stamped now c ps)
send_each-sent now c [] = sym (append-nil c.sent)
send_each-sent now c (p ∷ ps) =
    send_each-sent now (send now c p) ps
    ∙ unfold send in
      append_assoc c.sent (serialize (stamp now c p)) (wire (stamped now (send now c p) ps))

module _ (k : Socket) where
  open k use {Stream, pending}

  -- Receiving as many packets as the list has yields the packets of the list, in order.
  abbrev pub Receives : ℕ → Stream → List Packet → Bytes → Type 0
  Receives now s [] rest = pending s ≡ rest
  Receives now s (p ∷ ps) rest =
      (s' : Stream) × (receive k now s ≡ (packet p, s')) × Receives now s' ps rest

  wire-Receives :
      (now t : ℕ) (c : Sender) (ps : List Packet) (s : Stream) (rest : Bytes)
      → AllPayloads t c ps
      → pending s ≡ wire (stamped t c ps) ++ rest
      → Receives now s (stamped t c ps) rest
  wire-Receives now t c [] s rest v e = e
  wire-Receives now t c (p ∷ ps) s rest v e =
      let q = stamp t c p in
      let more = wire (stamped t (send t c p) ps) in
      let (s', run, next) =
        receive-serialize k now q s (more ++ rest) v.0.sendable v.0.small
          (e ∙ append_assoc (serialize q) more rest) in
      (s', run, wire-Receives now t (send t c p) ps s' rest v.1 next)

  -- Packets sent back to back over a new connection arrive whole, in order, and as they were
  -- stamped, however the network cuts the bytes into pieces.
  pub receive-send :
      (now t : ℕ) (c : Sender) (ps : List Packet) (s : Stream) (rest : Bytes)
      → AllPayloads t c ps
      → c.sent ≡ []
      → pending s ≡ (send_each t c ps).sent ++ rest
      → Receives now s (stamped t c ps) rest
  receive-send now t c ps s rest v fresh e =
      wire-Receives now t c ps s rest v (
        e
        ∙ ap (λ b. b ++ rest) (send_each-sent t c ps ∙ ap (λ b. b ++ wire (stamped t c ps)) fresh))
