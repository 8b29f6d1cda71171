-- ===== src/Frontend/Orderly.antt =====
-- Nothing is sent to a connection that is not open.
use twitter_clone.Prelude.{
  ℕ, ◌≡◌, ◌≢◌, refl, sym, ap, ◌∙◌, List, [], ◌∷◌, Option, none, some, inl, inr, subst,
}
use twitter_clone.Packet.{Packet}
use twitter_clone.Frontend.{
  Entry, Handler, HandlerPc, sent_client, sent_server, opened, closed, closed_client, sent_last,
  created, serving, closing, tested, sending, sent, shutting, joining, ended, crashed,
  restablish_connection, set_server_connection, restart_server_consumer, accepted, drop_server,
  log_in,
}
use twitter_clone.Frontend.System.{
  System, Step, begin, client_sends, client_leaves, client_parts, check, relay, lose, exit,
  restablish, skip, clear, new_leader_elsewhere, Fresh, IsFresh, Reach, begun, later,
}
use twitter_clone.Frontend.Open.{
  IsOpen, Orderly, Live, Inv, conn-Live, start-Inv, handle-Inv, finish-Inv, part-Inv, drop-Orderly,
  leave-Inv,
}

-- The new connection is not the one that is dropped.
drop-IsOpen :
    (old : Option ℕ) (k : ℕ) (h : Handler)
    → IsOpen k h.log
    → ((j : ℕ) → old ≡ some j → j ≢ k)
    → IsOpen k (drop_server old h).log
drop-IsOpen none k h o other = o
drop-IsOpen (some j) k h o other = (other j refl, o)

open-known : (k : ℕ) (log : List Entry) → IsOpen k log → ¬ Fresh k log
open-known k [] o f = o
open-known k (opened j ∷ log) (inl e) f = f.0 e
open-known k (opened j ∷ log) (inr o) f = open-known k log o f.1
open-known k (closed j ∷ log) o f = open-known k log o.1 f.1
open-known k (sent_client p ∷ log) o f = open-known k log o f
open-known k (sent_server j p ∷ log) o f = open-known k log o f.1
open-known k (closed_client ∷ log) o f = open-known k log o f
open-known k (sent_last j p ∷ log) o f = open-known k log o f.1

same : (j k : ℕ) → some k ≡ some j → j ≡ k
same j k q = cc

restablish-Inv :
    (now : ℕ) (conn : Option ℕ) (h : Handler)
    → IsFresh conn h.log
    → Inv h
    → Inv (restablish_connection now conn h)
unfolding restablish_connection set_server_connection restart_server_consumer
restablish-Inv now none h fresh i = record {
  orderly = drop-Orderly h.server_conn h i.orderly;
  known = λ k q. absurd cc;
  live = conn-Live _ none _ tt;
}
restablish-Inv now (some k) h fresh i =
    let h' = log_in now (some k) h in
    let o : IsOpen k h'.log = inl refl in
    let after = restablish_connection now (some k) h in
    let stays = drop-IsOpen h.server_conn k h' o (λ j q e. i.known k (q ∙ ap some e) fresh) in
    record {
      orderly = drop-Orderly h.server_conn h' (inl refl, i.orderly);
      known = λ j q f. open-known k after.log stays (subst (λ z. Fresh z after.log) (same j k q) f);
      live = conn-Live after.pc (some k) after.log stays;
    }

init-Inv : (conn : Option ℕ) → Inv (accepted conn)
unfolding accepted
init-Inv none = record { orderly = tt; known = λ k q. absurd cc; live = tt }
init-Inv (some k) = record {
  orderly = tt;
  known = λ j q f. f.0 (sym (same j k q));
  live = inl refl;
}

relay-Live :
    (pc : HandlerPc) (conn : Option ℕ) (log : List Entry) (p : Packet)
    → Live pc conn log
    → Live pc conn (sent_client p ∷ log)
relay-Live created none log p h = tt
relay-Live created (some k) log p h = h
relay-Live serving none log p h = tt
relay-Live serving (some k) log p h = h
relay-Live closing conn log p h = tt
relay-Live tested conn log p h = tt
relay-Live (sending _) conn log p h = tt
relay-Live sent conn log p h = tt
relay-Live (shutting _) conn log p h = tt
relay-Live joining conn log p h = tt
relay-Live ended conn log p h = tt
relay-Live crashed conn log p h = tt

Step-Inv : {s t : System} → Step s t → Inv s.handler → Inv t.handler
Step-Inv {s} (begin e) i = start-Inv s.handler e i
Step-Inv {s} (client_sends now p e) i = handle-Inv now s.should_restablish s.handler p e i
Step-Inv {s} (client_leaves e) i = finish-Inv s.handler i
Step-Inv {s} (client_parts now) i = part-Inv now s.handler.pc s.handler i
Step-Inv {s} (check before after e) i = record {
  orderly = i.orderly;
  known = i.known;
  live = i.live;
}
Step-Inv {s} (relay before after k p e) i = record {
  orderly = i.orderly;
  known = i.known;
  live = relay-Live s.handler.pc s.handler.server_conn s.handler.log p i.live;
}
Step-Inv {s} (lose before after k e) i = record {
  orderly = i.orderly;
  known = i.known;
  live = i.live;
}
Step-Inv {s} (exit before after e) i =
    let l = leave-Inv s.handler i in record { orderly = l.orderly; known = l.known; live = l.live }
Step-Inv {s} (restablish now conn m f k e fresh) i = restablish-Inv now conn s.handler fresh i
Step-Inv {s} (skip m f k) i = i
Step-Inv {s} (clear m) i = i
Step-Inv {s} new_leader_elsewhere i = i

-- Whatever the order in which the threads of a front-end move and whichever connections are lost,
-- what is sent to a leader under the mutex, and by main, goes to connections that were opened and
-- not closed since. What is left open is the CLOSE that a handler sends when its client has gone,
-- which it does without the mutex.
pub Reach-Orderly : (conn : Option ℕ) (s : System) → Reach conn s → Orderly s.handler.log
Reach-Orderly conn s r = (keeps r).orderly
  where
    keeps : {t : System} → Reach conn t → Inv t.handler
    keeps begun = init-Inv conn
    keeps (later before step) = Step-Inv step (keeps before)
