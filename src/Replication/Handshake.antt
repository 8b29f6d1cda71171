-- ===== src/Replication/Handshake.antt =====
-- The handshake with the leader: what the new replica and the leader then know.
use twitter_clone.Prelude.{
  ℕ, ◌+◌, ◌≤◌, ◌≡◌, refl, ap, ◌∙◌, true, List, [], ◌∷◌, ◌++◌, some, arith, length, All, pos,
  Bool-cases, inl, inr, to_int, int_max,
}
use twitter_clone.Packet.Types.{new_replica, replicas}
use twitter_clone.Replication.{ReplicaInfo, is_valid, receive_state}
use twitter_clone.Replication.Manager.{
  ReplicaManager, Message, answer_start_handshake, answer_hello, receive_hello, send_hello,
  send_state, welcome, extract_second,
}
use twitter_clone.Replication.Wire.{
  IsWritable, deserialize-serialize_replica, c_str-serialize_replica, receive_state-state_payload,
  c_str-state_payload,
}

-- The replica at place i of the vector has the id i.
abbrev pub IsNumbered : ℕ → List (ℕ × ReplicaInfo) → Type 0
IsNumbered i [] = Unit
IsNumbered i ((conn, r) ∷ v) = (r.id ≡ pos i) × IsNumbered (i + 1) v

to_int_small : (n : ℕ) → n ≤ int_max → to_int n ≡ pos n
to_int_small n h = ground arith

IsNumbered-concat :
    (i : ℕ) (v : List (ℕ × ReplicaInfo)) (conn : ℕ) (r : ReplicaInfo)
    → IsNumbered i v
    → r.id ≡ pos (i + length v)
    → IsNumbered i (v ++ (conn, r) ∷ [])
IsNumbered-concat i [] conn r h e = (e ∙ ap pos (omega arith), tt)
IsNumbered-concat i ((c, s) ∷ v) conn r h e =
    (h.0, IsNumbered-concat (i + 1) v conn r h.1 (e ∙ ap pos (omega arith)))

length-extract : (v : List (ℕ × ReplicaInfo)) → length (extract_second v) ≡ length v
unfolding extract_second
length-extract [] = refl
length-extract (x ∷ v) = omega (arith, length-extract v)

id_sent :
    (v : List (ℕ × ReplicaInfo))
    → length v ≤ int_max
    → to_int (length (extract_second v)) ≡ pos (length v)
id_sent v h = ap to_int (length-extract v) ∙ to_int_small (length v) h

-- If the leader has numbered the replicas by their places, counted from zero, it also does so with
-- one more that says hello, as far as an int counts.
pub answer_hello-IsNumbered :
    (conn : ℕ) (r : ReplicaInfo) (m : ReplicaManager)
    → m.is_leader ≡ true
    → length m.replicas_vector ≤ int_max
    → IsNumbered 0 m.replicas_vector
    → IsNumbered 0 (answer_hello conn r m).replicas_vector
unfolding answer_hello welcome send_state
answer_hello-IsNumbered conn r m leads fits h = elim (Bool-cases (is_valid r)) [
  | inl e ↦
      rw (e, leads)
        (IsNumbered-concat 0 m.replicas_vector conn _ h
          (id_sent m.replicas_vector fits ∙ ap pos (omega arith)))
  | inr e ↦ rw e h
]

-- A valid replica that says hello to the leader is sent, first and on the connection on which it
-- said so, a packet of type REPLICAS, from which it reads the id under which the leader keeps it,
-- the number of the replicas so far, and exactly those replicas, in their order. The addresses
-- have no separators and the numbers fit their types.
pub handshake_lem :
    (conn back : ℕ) (r : ReplicaInfo) (m : ReplicaManager)
    → m.is_leader ≡ true
    → IsWritable r
    → is_valid r ≡ true
    → All IsWritable (extract_second m.replicas_vector)
    → length m.replicas_vector ≤ int_max
    → let r' = record r { id = pos (length m.replicas_vector) } in
      (m' : ReplicaManager) × (state : Message) × (more : List Message) × (answer_start_handshake
          conn
          (some (new_replica, (send_hello back r).payload))
          m
        ≡ some m')
      × (m'.replicas_vector ≡ m.replicas_vector ++ (conn, r') ∷ [])
      × (m'.sent ≡ m.sent ++ state ∷ more)
      × (state.conn ≡ conn)
      × (state.type ≡ replicas)
      × (receive_state r state.payload ≡ some (r', extract_second m.replicas_vector))
unfolding answer_start_handshake answer_hello receive_hello send_hello send_state welcome
handshake_lem conn back r m leads w valid known fits = (
  welcome conn r m,
  (send_state conn r (extract_second m.replicas_vector)).1,
  _,
  rw (c_str-serialize_replica r w, deserialize-serialize_replica r w, valid, leads) refl,
  ap (λ z. m.replicas_vector ++ (conn, record r { id = z }) ∷ []) (id_sent m.replicas_vector fits),
  refl,
  refl,
  refl,
  rw
      (
        id_sent m.replicas_vector fits,
        c_str-state_payload (pos (length m.replicas_vector)) (extract_second m.replicas_vector)
            known,
      )
      (receive_state-state_payload r (pos (length m.replicas_vector))
        (extract_second m.replicas_vector) fits known),
)
