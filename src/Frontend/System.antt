-- ===== src/Frontend/System.antt =====
-- The threads of a front-end that one client is served by, interleaved in any order: its
-- ClientHandler, its ServerConsumers and main, and other handlers, which may raise the flag.
use twitter_clone.Prelude.{ℕ, ◌≡◌, ◌≢◌, Bool, true, false, List, [], ◌∷◌, ◌++◌, Option, none, some}
use twitter_clone.Packet.{Packet}
use twitter_clone.Frontend.{
  Entry, Handler, ConsumerPc, sent_client, sent_server, opened, closed, closed_client, created,
  sent_last, serving, checking, receiving, leaving, gone, note, is_finished, handle, start, finish,
  part, leave, receive_or_leave, restablish_connection, accepted,
}

-- Where main stands: before its test of the flag, or behind the call of restablishConnections.
pub data MainPc : Type 0 where
  polling restarted : MainPc

pub record System : Type 0 where
  pub handler : Handler
  pub should_restablish : Bool
  pub main : MainPc
  -- Whether the handler is in main's vector.
  pub kept : Bool
  -- What the client has sent, the newest first.
  pub received : List Packet
  -- What the leaders have sent and the ServerConsumers received, each with its connection, the newest
  -- first.
  pub delivered : List (ℕ × Packet)

-- A connection that connect returns has not been used before.
abbrev pub Fresh : ℕ → List Entry → Type 0
Fresh k [] = Unit
Fresh k (sent_client p ∷ log) = Fresh k log
Fresh k (sent_server j p ∷ log) = (j ≢ k) × Fresh k log
Fresh k (opened j ∷ log) = (j ≢ k) × Fresh k log
Fresh k (closed j ∷ log) = (j ≢ k) × Fresh k log
Fresh k (closed_client ∷ log) = Fresh k log
Fresh k (sent_last j p ∷ log) = (j ≢ k) × Fresh k log

abbrev pub IsFresh : Option ℕ → List Entry → Type 0
IsFresh none log = Unit
IsFresh (some k) log = Fresh k log

-- One of the ServerConsumers moves on.
abbrev pub moved : System → List ConsumerPc → ConsumerPc → List ConsumerPc → Handler → System
moved s before pc after h = record s { handler = record h { consumers = before ++ pc ∷ after } }

pub data Step (s : System) : System → Type 0 where
  begin : s.handler.pc ≡ created → Step s (record s { handler = start s.handler })
  client_sends :
      (now : ℕ) (p : Packet)
      → s.handler.pc ≡ serving
      → Step s (record s {
        handler = (handle now s.should_restablish s.handler p).1;
        should_restablish = (handle now s.should_restablish s.handler p).0;
        received = p ∷ s.received;
      })
  client_leaves : s.handler.pc ≡ serving → Step s (record s { handler = finish s.handler })
  client_parts : (now : ℕ) → Step s (record s { handler = part now s.handler.pc s.handler })
  check :
      (before after : List ConsumerPc)
      → s.handler.consumers ≡ before ++ checking ∷ after
      → Step s (
          moved s before
            (receive_or_leave s.should_restablish s.handler.server_conn)
            after
            s.handler)
  relay :
      (before after : List ConsumerPc) (k : ℕ) (p : Packet)
      → s.handler.consumers ≡ before ++ receiving k ∷ after
      → Step s (record (moved s before checking after (note (sent_client p) s.handler)) {
        delivered = (k, p) ∷ s.delivered;
      })
  lose :
      (before after : List ConsumerPc) (k : ℕ)
      → s.handler.consumers ≡ before ++ receiving k ∷ after
      → Step s (moved s before leaving after s.handler)
  exit :
      (before after : List ConsumerPc)
      → s.handler.consumers ≡ before ++ leaving ∷ after
      → Step s (moved s before gone after (leave s.handler))
  restablish :
      (now : ℕ) (conn : Option ℕ)
      → s.main ≡ polling
      → s.should_restablish ≡ true
      → s.kept ≡ true
      → is_finished s.handler.pc ≡ false
      → IsFresh conn s.handler.log
      → Step s (record s { handler = restablish_connection now conn s.handler; main = restarted })
  -- The handler is not in the vector, or it is taken out.
  skip :
      s.main ≡ polling
      → s.should_restablish ≡ true
      → (s.kept ≡ true → is_finished s.handler.pc ≡ true)
      → Step s (record s { kept = false; main = restarted })
  clear : s.main ≡ restarted → Step s (record s { should_restablish = false; main = polling })
  new_leader_elsewhere : Step s (record s { should_restablish = true })

abbrev pub init : Option ℕ → System
init conn = record {
  handler = accepted conn;
  should_restablish = false;
  main = polling;
  kept = true;
  received = [];
  delivered = [];
}

pub data Reach (conn : Option ℕ) : System → Type 0 where
  begun : Reach conn (init conn)
  later : {s t : System} → Reach conn s → Step s t → Reach conn t

pub data Steps (s : System) : System → Type 0 where
  stay : Steps s s
  move : {t u : System} → Steps s t → Step t u → Steps s u
