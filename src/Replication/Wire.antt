-- ===== src/Replication/Wire.antt =====
-- The text forms of replicas: a replica, the list of the others, and the state of a new replica.
use twitter_clone.Prelude.{
  ℕ, ◌+◌, ◌≤◌, ◌≡◌, ◌≢◌, refl, sym, ap, ◌∙◌, List, [], ◌∷◌, ◌++◌, map, some, arith, length, All,
  All-append, Bytes, Lacks, codes, ℤ, pos, negsuc, IsInt, append_assoc, is_empty, false,
}
use mathlib.Core.List.{cons-ne-nil}
use twitter_clone.Text.{split, split_first, join_string_vector, join_loop}
use twitter_clone.Text.Split.{split-join, glue, join_loop-glue, Lacks-Clear}
use twitter_clone.Text.Find.{split_first-Clear}
use twitter_clone.Packet.{c_str}
use twitter_clone.Packet.Header.{c_str-Lacks}
use twitter_clone.Numbers.{print_int}
use twitter_clone.Numbers.Digits.{print_int-Lacks, length-print}
use twitter_clone.Numbers.RoundTrip.{atoi-print_int}
use twitter_clone.Replication.{
  ReplicaInfo, serialize, deserialize, serialize_rest, serialize_replicas, deserialize_lines,
  deserialize_replicas, state_payload, receive_state, read_replicas,
}

-- An address without separators, and numbers that fit.
pub record IsWritable (r : ReplicaInfo) : Type 0 where
  pub id_fits : IsInt r.id
  pub port_fits : IsInt r.port
  pub one_word : Lacks b' ' r.ip
  pub one_line : Lacks b'\n' r.ip
  pub no_nul : Lacks 0 r.ip

words : ReplicaInfo → List Bytes
words r = print_int r.id ∷ r.ip ∷ print_int r.port ∷ []

serialize-eq : (r : ReplicaInfo) → serialize r ≡ join_string_vector (words r) (codes " ")
unfolding serialize words join_string_vector
serialize-eq r =
    sym (append_assoc (print_int r.id) (codes " " ++ r.ip) (codes " " ++ print_int r.port))

split-serialize :
    (r : ReplicaInfo) → IsWritable r → split (serialize r) (codes " ") ≡ some (words r)
unfolding words
split-serialize r w =
    ap (λ t. split t (codes " ")) (serialize-eq r)
    ∙ split-join (words r) b' ' (cons-ne-nil _ _) (
      print_int-Lacks b' ' (omega arith) r.id,
      (w.one_word, (print_int-Lacks b' ' (omega arith) r.port, tt)),
    )

-- A replica arrives with its id, address and port.
pub deserialize-serialize_replica :
    (r : ReplicaInfo) → IsWritable r → deserialize (serialize r) ≡ some r
unfolding deserialize words
deserialize-serialize_replica r w =
    rw (split-serialize r w, atoi-print_int r.id w.id_fits, atoi-print_int r.port w.port_fits) refl

serialize_rest-eq :
    (s : Bytes) (rs : List ReplicaInfo)
    → serialize_rest s rs ≡ join_loop (codes "\n") (map serialize rs) s
unfolding serialize_rest join_loop
serialize_rest-eq s [] = refl
serialize_rest-eq s (r ∷ rs) = serialize_rest-eq (s ++ (codes "\n" ++ serialize r)) rs

serialize_replicas-eq :
    (rs : List ReplicaInfo)
    → serialize_replicas rs ≡ join_string_vector (map serialize rs) (codes "\n")
unfolding serialize_replicas join_string_vector
serialize_replicas-eq [] = refl
serialize_replicas-eq (r ∷ rs) = serialize_rest-eq (serialize r) rs

serialize-one_line : (r : ReplicaInfo) → IsWritable r → Lacks b'\n' (serialize r)
unfolding serialize
serialize-one_line r w =
    let Plain : ℕ → Type 0 = λ c. c ≢ b'\n' in
    All-append Plain (print_int r.id) _ (print_int-Lacks b'\n' (omega arith) r.id) (
      omega arith,
      All-append Plain r.ip _ w.one_line (omega arith, print_int-Lacks b'\n' (omega arith) r.port),
    )

serialized-Lacks :
    (rs : List ReplicaInfo) → All IsWritable rs → All (Lacks b'\n') (map serialize rs)
serialized-Lacks [] h = tt
serialized-Lacks (r ∷ rs) h = (serialize-one_line r h.0, serialized-Lacks rs h.1)

deserialize_lines-serialized :
    (rs : List ReplicaInfo) → All IsWritable rs → deserialize_lines (map serialize rs) ≡ some rs
unfolding deserialize_lines
deserialize_lines-serialized [] h = refl
deserialize_lines-serialized (r ∷ rs) h =
    rw (deserialize-serialize_replica r h.0, deserialize_lines-serialized rs h.1) refl

deserialize-serialize_replicas :
    (r : ReplicaInfo) (rs : List ReplicaInfo)
    → All IsWritable (r ∷ rs)
    → deserialize_replicas (serialize_replicas (r ∷ rs)) ≡ some (r ∷ rs)
unfolding deserialize_replicas
deserialize-serialize_replicas r rs h =
    rw
      (
        serialize_replicas-eq (r ∷ rs),
        split-join (map serialize (r ∷ rs)) b'\n' (cons-ne-nil _ _) (serialized-Lacks (r ∷ rs) h),
      )
      (deserialize_lines-serialized (r ∷ rs) h)

is_empty-append : (s t : Bytes) (c : ℕ) → is_empty (s ++ c ∷ t) ≡ false
is_empty-append [] t c = refl
is_empty-append (d ∷ s) t c = refl

serialize_replicas-cons :
    (r : ReplicaInfo) (rs : List ReplicaInfo) → is_empty (serialize_replicas (r ∷ rs)) ≡ false
unfolding serialize serialize_replicas
serialize_replicas-cons r rs =
    let rest = glue (codes "\n") (map serialize rs) in
    ap is_empty (
      serialize_rest-eq (serialize r) rs
      ∙ join_loop-glue (codes "\n") (map serialize rs) (serialize r)
      ∙ append_assoc (print_int r.id) (codes " " ++ (r.ip ++ (codes " " ++ print_int r.port))) rest)
    ∙ is_empty-append (print_int r.id) _ b' '

read-serialized :
    (rs : List ReplicaInfo) → All IsWritable rs → read_replicas (serialize_replicas rs) ≡ some rs
unfolding serialize_replicas
read-serialized [] h = refl
read-serialized (r ∷ rs) h =
    rw (serialize_replicas-cons r rs) (deserialize-serialize_replicas r rs h)

length-print_int : (z : ℤ) → IsInt z → length (print_int z) ≤ 11
unfolding print_int
length-print_int (pos n) h = omega (arith, length-print n 10 (omega arith) (omega arith))
length-print_int (negsuc n) h = grind (arith, length-print (n + 1) 10 (omega arith) (omega arith))

-- A new replica reads from the state that it is sent its id and exactly the replicas that were
-- there before it, in their order, also where there are none.
pub receive_state-state_payload :
    (info : ReplicaInfo) (id : ℤ) (rs : List ReplicaInfo)
    → IsInt id
    → All IsWritable rs
    → receive_state info (state_payload id rs) ≡ some (record info { id = id }, rs)
unfolding receive_state state_payload
receive_state-state_payload info id rs k h =
    let rest = serialize_replicas rs in
    let parts : split_first (print_int id ++ (codes "\n" ++ rest)) (codes "\n")
        ≡ print_int id ∷ rest ∷ [] =
      split_first-Clear (codes "\n") (print_int id) rest
        (Lacks-Clear b'\n' (print_int id) rest (print_int-Lacks b'\n' (omega arith) id))
        (omega (arith, length-print_int id k)) in
    rw (is_empty-append (print_int id) rest b'\n', parts, read-serialized rs h, atoi-print_int id k)
      refl

serialize-Clean : (r : ReplicaInfo) → IsWritable r → Lacks 0 (serialize r)
unfolding serialize
serialize-Clean r w =
    let Plain : ℕ → Type 0 = λ c. c ≢ 0 in
    All-append Plain (print_int r.id) _ (print_int-Lacks 0 (omega arith) r.id) (
      omega arith,
      All-append Plain r.ip _ w.no_nul (omega arith, print_int-Lacks 0 (omega arith) r.port),
    )

-- Nothing of the text form is lost when it is handed over as a C string.
pub c_str-serialize_replica : (r : ReplicaInfo) → IsWritable r → c_str (serialize r) ≡ serialize r
c_str-serialize_replica r w = c_str-Lacks (serialize r) (serialize-Clean r w)

glue-Clean :
    (rs : List ReplicaInfo) → All IsWritable rs → Lacks 0 (glue (codes "\n") (map serialize rs))
unfolding glue
glue-Clean [] h = tt
glue-Clean (r ∷ rs) h =
    let Plain : ℕ → Type 0 = λ c. c ≢ 0 in
    (omega arith, All-append Plain (serialize r) _ (serialize-Clean r h.0) (glue-Clean rs h.1))

serialize_replicas-Clean :
    (rs : List ReplicaInfo) → All IsWritable rs → Lacks 0 (serialize_replicas rs)
unfolding serialize_replicas
serialize_replicas-Clean [] h = tt
serialize_replicas-Clean (r ∷ rs) h =
    let Plain : ℕ → Type 0 = λ c. c ≢ 0 in
    rw
      (
        serialize_rest-eq (serialize r) rs,
        join_loop-glue (codes "\n") (map serialize rs) (serialize r),
      )
      (All-append Plain (serialize r) _ (serialize-Clean r h.0) (glue-Clean rs h.1))

pub c_str-state_payload :
    (id : ℤ) (rs : List ReplicaInfo)
    → All IsWritable rs
    → c_str (state_payload id rs) ≡ state_payload id rs
unfolding state_payload
c_str-state_payload id rs h =
    let Plain : ℕ → Type 0 = λ c. c ≢ 0 in
    c_str-Lacks _ (
      All-append Plain (print_int id) _ (print_int-Lacks 0 (omega arith) id)
        (omega arith, serialize_replicas-Clean rs h))
