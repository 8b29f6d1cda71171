-- ===== src/Replication/Leader.antt =====
-- What the end of an election does, up to the front-ends.
use twitter_clone.Prelude.{
  ℕ, ◌≡◌, refl, sym, ap, ◌∙◌, subst, Bool, true, false, ◌&&◌, List, [], ◌∷◌, ◌++◌, map, append-nil,
  Option, none, some, Bytes, All,
}
use twitter_clone.Packet.{Packet}
use twitter_clone.Packet.Types.{new_leader, coordinator}
use twitter_clone.Providers.{Address, frontend_addresses}
use twitter_clone.Replication.{ReplicaInfo, serialize, is_not_me, ranks_above}
use twitter_clone.Replication.Manager.{
  ReplicaManager, Message, message, remove_closed_connections, send_election, send_coordinator,
  extract_first,
}
use twitter_clone.Replication.Wire.{IsWritable}
use twitter_clone.Replication.Election.{Answers, is_outranked, send_election_lem, or_left, or_right}
use twitter_clone.Replication.Running.{
  Replica, Round, elect, conclude, notify_each, notify_frontends, send_notice,
}
use twitter_clone.Frontend.{Handler, handle}

-- The connections to the addresses that can be reached.
abbrev pub reached_one : Option ℕ → List ℕ → List ℕ
reached_one none rest = rest
reached_one (some conn) rest = conn ∷ rest

abbrev pub reached : (Address → Option ℕ) → List Address → List ℕ
reached connect [] = []
reached connect (a ∷ addresses) = reached_one (connect a) (reached connect addresses)

-- A front-end that handles a packet of this type asks for new connections to the leader.
abbrev pub Raises : Message → Type 0
Raises n =
    (now : ℕ) (flag : Bool) (h : Handler) (p : Packet)
    → p.type ≡ n.type
    → (handle now flag h p).0 ≡ true

-- One NEW_LEADER for each front-end that can be reached, in their order.
abbrev pub Notifies : Round → List Message → Type 0
Notifies r notices =
    (map (λ n. n.conn) notices ≡ reached r.to_frontend frontend_addresses) × All Raises notices

raises : (conn : ℕ) (payload : Bytes) → Raises (message conn new_leader payload)
unfolding handle
raises conn payload now flag h p e = rw e refl

notice-reached :
    (o : Option ℕ) (payload : Bytes) (rest : List Message) (conns : List ℕ)
    → (map (λ n. n.conn) rest ≡ conns) × All Raises rest
    → (map (λ n. n.conn) (send_notice o payload rest) ≡ reached_one o conns)
      × All Raises (send_notice o payload rest)
notice-reached none payload rest cs h = h
notice-reached (some conn) payload rest cs (conns, all) =
    (ap (λ cs. conn ∷ cs) conns, (raises conn payload, all))

notify-reached :
    (connect : Address → Option ℕ) (payload : Bytes) (addresses : List Address)
    → (map (λ n. n.conn) (notify_each connect payload addresses) ≡ reached connect addresses)
      × All Raises (notify_each connect payload addresses)
unfolding notify_each
notify-reached connect payload [] = (refl, tt)
notify-reached connect payload (a ∷ addresses) =
    notice-reached (connect a) payload _ _ (notify-reached connect payload addresses)

-- A replica that none outranks asks nobody.
asks-nobody :
    (answer : ℕ → Bytes → Bytes) (me : ReplicaInfo) (v : List (ℕ × ReplicaInfo))
    → is_outranked me v ≡ false
    → send_election answer me v false ≡ (false, [])
unfolding send_election is_outranked
asks-nobody answer me [] e = refl
asks-nobody answer me ((conn, r) ∷ v) e =
    rw (or_left (is_not_me me r && ranks_above r me) (is_outranked me v) e) (
      asks-nobody answer me v (or_right (is_not_me me r && ranks_above r me) (is_outranked me v) e))

lost-same :
    (r : Round) (m : ReplicaManager) (x : Replica) (outcome : Bool × List Message)
    → m.is_leader ≡ x.manager.is_leader
    → outcome.0 ≡ true
    → let x' = conclude r m x outcome in
      (x'.manager.is_leader ≡ x.manager.is_leader)
      × (x'.leader_conn ≡ x.leader_conn)
      × (x'.notices ≡ x.notices)
lost-same r m x (true, asked) same e = (same, refl, refl)
lost-same r m x (false, asked) same e = absurd cc

-- What a replica that has won has done.
abbrev pub Leads : Round → ReplicaManager → Replica → Replica → Type 0
Leads r m x x' =
    (x'.manager.is_leader ≡ true)
    × (x'.leader_conn ≡ none)
    × (x'.manager.sent
        ≡ x.manager.sent
          ++ map (λ conn. message conn coordinator (serialize m.info))
              (extract_first m.replicas_vector))
    × (notices : List Message) × (x'.notices ≡ x.notices ++ notices)
    × Notifies r notices

won-Leads :
    (r : Round) (m : ReplicaManager) (x : Replica)
    → m.sent ≡ x.manager.sent
    → Leads r m x (conclude r m x (false, []))
unfolding send_coordinator notify_frontends
won-Leads r m x same = (
  refl,
  refl,
  ap
      (λ l.
        l
        ++ map (λ conn. message conn coordinator (serialize m.info))
            (extract_first m.replicas_vector))
      (append-nil m.sent ∙ same),
  notify_frontends r.to_frontend m.info,
  refl,
  notify-reached r.to_frontend _ frontend_addresses,
)

-- After the closed connections are removed, and if every peer answers as its handler does: where
-- another replica has a smaller id, the election changes neither whether this replica is the leader
-- nor its connection to the leader, and no front-end is told; where none has, this replica is the
-- leader, it has no connection to another one, and it has sent one COORDINATOR on each connection,
-- in order, and nothing else, and one NEW_LEADER to each front-end that can be reached, which makes
-- that front-end ask for new connections. The address of this replica has no separators and its
-- numbers fit their types.
pub elect_lem :
    (r : Round) (x : Replica)
    → let m = remove_closed_connections r.is_closed x.manager in
      IsWritable m.info
      → Answers r.answer m.replicas_vector
      → let x' = elect r x in
        (is_outranked m.info m.replicas_vector ≡ true
          → (x'.manager.is_leader ≡ x.manager.is_leader)
            × (x'.leader_conn ≡ x.leader_conn)
            × (x'.notices ≡ x.notices))
        × (is_outranked m.info m.replicas_vector ≡ false → Leads r m x x')
unfolding elect remove_closed_connections
elect_lem r x w answers =
    let m = remove_closed_connections r.is_closed x.manager in
    let outcome = send_election r.answer m.info m.replicas_vector false in
    (
      λ e.
          lost-same r m x outcome refl
            (send_election_lem r.answer m.info m.replicas_vector w answers ∙ e),
      λ e.
          subst (λ o. Leads r m x (conclude r m x o))
            (sym (asks-nobody r.answer m.info m.replicas_vector e)) (won-Leads r m x refl),
    )
