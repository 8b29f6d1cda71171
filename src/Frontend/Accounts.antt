-- ===== src/Frontend/Accounts.antt =====
-- What becomes of each packet of a client.
use twitter_clone.Prelude.{
  ℕ, ◌≡◌, refl, sym, ap, Bool, true, false, List, [], ◌∷◌, Option, none, some, Bool-cases, inl, inr,
  subst, Bytes,
}
use twitter_clone.Packet.{Packet, make, c_str}
use twitter_clone.Packet.Types.{login, close}
use twitter_clone.Frontend.{
  username_after, Entry, Handler, HandlerPc, sent_client, sent_server, opened, closed,
  closed_client, sent_last, created, serving, closing, tested, sending, sent, shutting, joining,
  ended, crashed, handle, start, finish, part, test, for_send, for_close, leave,
  restablish_connection, set_server_connection, restart_server_consumer, accepted, is_new_leader,
  refuse_or_pass, drop_server, log_in, retry,
}
use twitter_clone.Frontend.System.{
  System, Step, begin, client_sends, client_leaves, client_parts, check, relay, lose, exit,
  restablish, skip, clear, new_leader_elsewhere, Reach, begun, later,
}

-- The user of a client: the payload of its last LOGIN, the newest packet being the first.
abbrev pub username_of : List Packet → Bytes
username_of [] = []
username_of (p ∷ ps) = username_after p.type p.payload (username_of ps)

abbrev pub HasLeft : List Entry → Type 0
HasLeft [] = ⊥
HasLeft (closed_client ∷ log) = Unit
HasLeft (sent_client p ∷ log) = HasLeft log
HasLeft (sent_server k p ∷ log) = HasLeft log
HasLeft (opened k ∷ log) = HasLeft log
HasLeft (closed k ∷ log) = HasLeft log
HasLeft (sent_last k p ∷ log) = HasLeft log

-- What was done to the connections, explained by the packets of the client and by those that leaders
-- sent, the newest first. Each packet of the client is passed on, refused or a NEW_LEADER, and is the
-- reason of one entry at most; each other packet to the client is one that a leader sent. All else that
-- is sent is the LOGIN of the user on a connection that was just opened, and a CLOSE when the client
-- has gone.
pub data Accounts : List Entry → List Packet → List (ℕ × Packet) → Type 0 where
  nothing : Accounts [] [] []
  passed :
      {log : List Entry} {ps : List Packet} {ds : List (ℕ × Packet)} (k : ℕ) (p : Packet)
      → is_new_leader p.type ≡ false
      → Accounts log ps ds
      → Accounts (sent_server k p ∷ log) (p ∷ ps) ds
  refused :
      {log : List Entry} {ps : List Packet} {ds : List (ℕ × Packet)} (now : ℕ) (p : Packet)
      → is_new_leader p.type ≡ false
      → Accounts log ps ds
      → Accounts (sent_client (retry now) ∷ log) (p ∷ ps) ds
  signalled :
      {log : List Entry} {ps : List Packet} {ds : List (ℕ × Packet)} (p : Packet)
      → is_new_leader p.type ≡ true
      → Accounts log ps ds
      → Accounts log (p ∷ ps) ds
  relayed :
      {log : List Entry} {ps : List Packet} {ds : List (ℕ × Packet)} (k : ℕ) (p : Packet)
      → Accounts log ps ds
      → Accounts (sent_client p ∷ log) ps ((k, p) ∷ ds)
  logged_in :
      {log : List Entry} {ps : List Packet} {ds : List (ℕ × Packet)} (k now : ℕ)
      → Accounts log ps ds
      → Accounts (sent_server k (make now login (c_str (username_of ps))) ∷ opened k ∷ log) ps ds
  closing_server :
      {log : List Entry} {ps : List Packet} {ds : List (ℕ × Packet)} (k now : ℕ)
      → HasLeft log
      → Accounts log ps ds
      → Accounts (sent_last k (make now close []) ∷ log) ps ds
  closing_client :
      {log : List Entry} {ps : List Packet} {ds : List (ℕ × Packet)}
      → Accounts log ps ds
      → Accounts (closed_client ∷ log) ps ds
  opening :
      {log : List Entry} {ps : List Packet} {ds : List (ℕ × Packet)} (k : ℕ)
      → Accounts log ps ds
      → Accounts (opened k ∷ log) ps ds
  shut :
      {log : List Entry} {ps : List Packet} {ds : List (ℕ × Packet)} (k : ℕ)
      → Accounts log ps ds
      → Accounts (closed k ∷ log) ps ds

-- A thread behind its loop has closed the connection to the client.
abbrev Gone : HandlerPc → List Entry → Type 0
Gone created log = Unit
Gone serving log = Unit
Gone _ log = HasLeft log

record Inv (h : Handler) (ps : List Packet) (ds : List (ℕ × Packet)) : Type 0 where
  user : h.username ≡ username_of ps
  explained : Accounts h.log ps ds
  departed : Gone h.pc h.log

HasLeft-more : (e : Entry) (log : List Entry) → HasLeft log → HasLeft (e ∷ log)
HasLeft-more closed_client log h = tt
HasLeft-more (sent_client p) log h = h
HasLeft-more (sent_server k p) log h = h
HasLeft-more (opened k) log h = h
HasLeft-more (closed k) log h = h
HasLeft-more (sent_last k p) log h = h

Gone-more : (pc : HandlerPc) (e : Entry) (log : List Entry) → Gone pc log → Gone pc (e ∷ log)
Gone-more created e log h = tt
Gone-more serving e log h = tt
Gone-more closing e log h = HasLeft-more e log h
Gone-more tested e log h = HasLeft-more e log h
Gone-more (sending _) e log h = HasLeft-more e log h
Gone-more sent e log h = HasLeft-more e log h
Gone-more (shutting _) e log h = HasLeft-more e log h
Gone-more joining e log h = HasLeft-more e log h
Gone-more ended e log h = HasLeft-more e log h
Gone-more crashed e log h = HasLeft-more e log h

pass-Accounts :
    (now : ℕ) (flag : Bool) (conn : Option ℕ) (p : Packet) {log : List Entry} {ps : List Packet}
    {ds : List (ℕ × Packet)}
    → is_new_leader p.type ≡ false
    → Accounts log ps ds
    → Accounts (refuse_or_pass now flag conn p ∷ log) (p ∷ ps) ds
pass-Accounts now flag none p e a = refused now p e a
pass-Accounts now true (some k) p e a = refused now p e a
pass-Accounts now false (some k) p e a = passed k p e a

module _ (ds : List (ℕ × Packet)) where
  handle-Inv :
      (now : ℕ) (flag : Bool) (h : Handler) (ps : List Packet) (p : Packet)
      → Inv h ps ds
      → Inv (handle now flag h p).1 (p ∷ ps) ds
  unfolding handle
  handle-Inv now flag h ps p i =
      let user = ap (username_after p.type p.payload) i.user in
      let entry = refuse_or_pass now flag h.server_conn p in
      elim (Bool-cases (is_new_leader p.type)) [
        | inl t ↦
            rw t
              (record { user = user; explained = signalled p t i.explained; departed = i.departed })
        | inr t ↦ rw t (record {
          user = user;
          explained = pass-Accounts now flag h.server_conn p t i.explained;
          departed = Gone-more h.pc entry h.log i.departed;
        })
      ]

  drop-Inv :
      (conn : Option ℕ) (h : Handler) (ps : List Packet)
      → Inv h ps ds
      → Inv (drop_server conn h) ps ds
  drop-Inv none h ps i = i
  drop-Inv (some k) h ps i = record {
    user = i.user;
    explained = shut k i.explained;
    departed = Gone-more h.pc (closed k) h.log i.departed;
  }

  log_in-Inv :
      (now : ℕ) (conn : Option ℕ) (h : Handler) (ps : List Packet)
      → Inv h ps ds
      → Inv (log_in now conn h) ps ds
  log_in-Inv now none h ps i = i
  log_in-Inv now (some k) h ps i =
      let hello = sent_server k (make now login (c_str h.username)) in
      record {
        user = i.user;
        explained =
            subst
              (λ name.
                Accounts (sent_server k (make now login (c_str name)) ∷ opened k ∷ h.log) ps ds)
              (sym i.user) (logged_in k now i.explained);
        departed =
            Gone-more h.pc hello (opened k ∷ h.log) (Gone-more h.pc (opened k) h.log i.departed);
      }

  restablish-Inv :
      (now : ℕ) (conn : Option ℕ) (h : Handler) (ps : List Packet)
      → Inv h ps ds
      → Inv (restablish_connection now conn h) ps ds
  unfolding restablish_connection set_server_connection restart_server_consumer
  restablish-Inv now conn h ps i =
      let h' = log_in now conn h in
      let d = drop-Inv h'.server_conn h' ps (log_in-Inv now conn h ps i) in
      record { user = d.user; explained = d.explained; departed = d.departed }

  test-Gone : (conn : Option ℕ) (log : List Entry) → HasLeft log → Gone (test conn) log
  test-Gone none log h = h
  test-Gone (some k) log h = h

  for_send-Gone : (conn : Option ℕ) (log : List Entry) → HasLeft log → Gone (for_send conn) log
  for_send-Gone none log h = h
  for_send-Gone (some k) log h = h

  for_close-Gone : (conn : Option ℕ) (log : List Entry) → HasLeft log → Gone (for_close conn) log
  for_close-Gone none log h = h
  for_close-Gone (some k) log h = h

  part-Inv :
      (now : ℕ) (pc : HandlerPc) (h : Handler) (ps : List Packet)
      → Gone pc h.log
      → Inv h ps ds
      → Inv (part now pc h) ps ds
  unfolding part
  part-Inv now closing h ps g i = record {
    user = i.user;
    explained = i.explained;
    departed = test-Gone h.server_conn h.log g;
  }
  part-Inv now tested h ps g i = record {
    user = i.user;
    explained = i.explained;
    departed = for_send-Gone h.server_conn h.log g;
  }
  part-Inv now (sending k) h ps g i = record {
    user = i.user;
    explained = closing_server k now g i.explained;
    departed = g;
  }
  part-Inv now sent h ps g i = record {
    user = i.user;
    explained = i.explained;
    departed = for_close-Gone h.server_conn h.log g;
  }
  part-Inv now (shutting k) h ps g i = record {
    user = i.user;
    explained = shut k i.explained;
    departed = g;
  }
  part-Inv now joining h ps g i = record { user = i.user; explained = i.explained; departed = g }
  part-Inv now created h ps g i = i
  part-Inv now serving h ps g i = i
  part-Inv now ended h ps g i = i
  part-Inv now crashed h ps g i = i

init-Inv : (conn : Option ℕ) → Inv (accepted conn) [] []
unfolding accepted
init-Inv none = record { user = refl; explained = nothing; departed = tt }
init-Inv (some k) = record { user = refl; explained = opening k nothing; departed = tt }

abbrev Kept : System → Type 0
Kept s = Inv s.handler s.received s.delivered

Step-Kept : {s t : System} → Step s t → Kept s → Kept t
unfolding start finish leave
Step-Kept {s} (begin e) i = record { user = i.user; explained = i.explained; departed = tt }
Step-Kept {s} (client_sends now p e) i =
    handle-Inv s.delivered now s.should_restablish s.handler s.received p i
Step-Kept {s} (client_leaves e) i = record {
  user = i.user;
  explained = closing_client i.explained;
  departed = tt;
}
Step-Kept {s} (client_parts now) i =
    part-Inv s.delivered now s.handler.pc s.handler s.received i.departed i
Step-Kept {s} (check before after e) i = record {
  user = i.user;
  explained = i.explained;
  departed = i.departed;
}
Step-Kept {s} (relay before after k p e) i = record {
  user = i.user;
  explained = relayed k p i.explained;
  departed = Gone-more s.handler.pc (sent_client p) s.handler.log i.departed;
}
Step-Kept {s} (lose before after k e) i = record {
  user = i.user;
  explained = i.explained;
  departed = i.departed;
}
Step-Kept {s} (exit before after e) i =
    let d = drop-Inv s.delivered s.handler.server_conn s.handler s.received i in
    record { user = d.user; explained = d.explained; departed = d.departed }
Step-Kept {s} (restablish now conn m f k e fresh) i =
    restablish-Inv s.delivered now conn s.handler s.received i
Step-Kept {s} (skip m f k) i = i
Step-Kept {s} (clear m) i = i
Step-Kept {s} new_leader_elsewhere i = i

-- Whatever the order in which the threads of a front-end move, each packet of a client other than
-- a NEW_LEADER is, in its place in the order, either passed on to a leader or answered by an
-- ERROR, and never both: every other packet that the client gets is one that a leader sent and a
-- ServerConsumer received. What else is sent to a leader is the LOGIN of the client's user on a
-- connection that was just opened, and a CLOSE when the client has gone.
pub Reach-Accounts :
    (conn : Option ℕ) (s : System) → Reach conn s → Accounts s.handler.log s.received s.delivered
Reach-Accounts conn s r = (keeps r).explained
  where
    keeps : {t : System} → Reach conn t → Kept t
    keeps begun = init-Inv conn
    keeps (later before step) = Step-Kept step (keeps before)
