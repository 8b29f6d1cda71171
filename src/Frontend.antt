-- ===== src/Frontend.antt =====
-- src/frontend: what a front-end does for one client, between the client's connection and the
-- connections to the leader, which are numbered. Each function is one step under the handler's
-- mutex, or outside of it.
pub mod System
pub mod Open
pub mod Orderly
pub mod Accounts
pub mod Restart
use twitter_clone.Prelude.{
  ℕ, Bool, true, false, not, ◌&&◌, List, [], ◌∷◌, ◌++◌, Option, none, some, if◌then◌else◌, Bytes,
  codes,
}
use twitter_clone.Packet.{Packet, make, c_str}
use twitter_clone.Packet.Types.{PacketType, login, new_leader, error, close}

-- What is done to the connections.
pub data Entry : Type 0 where
  sent_client : Packet → Entry
  sent_server : ℕ → Packet → Entry
  opened : ℕ → Entry
  closed : ℕ → Entry
  closed_client : Entry
  -- By a ClientHandler whose client has gone, without the mutex.
  sent_last : ℕ → Packet → Entry

-- Where the thread of a ClientHandler stands: not yet in run; in its loop; behind it, before the test
-- of m_serverConn; behind that test; with the m_serverConn that is read for send; behind send; with the
-- one that is read for close; before join; at its end; or where a NULL m_serverConn is followed.
pub data HandlerPc : Type 0 where
  created serving closing tested : HandlerPc
  sending : ℕ → HandlerPc
  sent : HandlerPc
  shutting : ℕ → HandlerPc
  joining ended crashed : HandlerPc

-- Where a ServerConsumer stands: before the test of its loop, in receive, behind the loop, at its end.
pub data ConsumerPc : Type 0 where
  checking : ConsumerPc
  receiving : ℕ → ConsumerPc
  leaving gone : ConsumerPc

-- m_serverConn, which the handler's ServerConsumers share, the user's name, the threads, and what was
-- done to the connections, the newest first.
pub record Handler : Type 0 where
  pub server_conn : Option ℕ
  pub username : Bytes
  pub pc : HandlerPc
  pub consumers : List ConsumerPc
  pub log : List Entry

abbrev pub is_finished : HandlerPc → Bool
is_finished created = true
is_finished serving = false
is_finished ended = true
is_finished _ = false

abbrev pub note : Entry → Handler → Handler
note e h = record h { log = e ∷ h.log }

-- Packet(ERROR, ...), at the time `now`.
abbrev pub retry : ℕ → Packet
retry now = make now error (codes "Connection lost. Please, retry in a few seconds.")

abbrev pub refuse_or_pass : ℕ → Bool → Option ℕ → Packet → Entry
refuse_or_pass now should_restablish none p = sent_client (retry now)
refuse_or_pass now true (some k) p = sent_client (retry now)
refuse_or_pass now false (some k) p = sent_server k p

abbrev pub is_new_leader : PacketType → Bool
is_new_leader new_leader = true
is_new_leader _ = false

abbrev pub username_after : PacketType → Bytes → Bytes → Bytes
username_after login payload username = payload
username_after _ payload username = username

-- The body of the loop of ClientHandler::run: the flag, and the handler.
unfoldable pub handle : ℕ → Bool → Handler → Packet → Bool × Handler
handle now should_restablish h p =
    let h' = record h { username = username_after p.type p.payload h.username } in
    if is_new_leader p.type
    then (true, h')
    else (should_restablish, note (refuse_or_pass now should_restablish h.server_conn p) h')

-- Its start: the thread of the first ServerConsumer.
unfoldable pub start : Handler → Handler
start h = record h { pc = serving; consumers = checking ∷ h.consumers }

-- The end of the loop.
unfoldable pub finish : Handler → Handler
finish h = note closed_client (record h { pc = closing })

abbrev pub test : Option ℕ → HandlerPc
test none = joining
test (some k) = tested

abbrev pub for_send : Option ℕ → HandlerPc
for_send none = crashed
for_send (some k) = sending k

abbrev pub for_close : Option ℕ → HandlerPc
for_close none = crashed
for_close (some k) = shutting k

-- One step of what stands behind the loop. It does not hold the mutex, so m_serverConn is read again
-- for each use, and another thread may have closed or replaced it. m_serverConn stays as it is.
unfoldable pub part : ℕ → HandlerPc → Handler → Handler
part now closing h = record h { pc = test h.server_conn }
part now tested h = record h { pc = for_send h.server_conn }
part now (sending k) h = note (sent_last k (make now close [])) (record h { pc = sent })
part now sent h = record h { pc = for_close h.server_conn }
part now (shutting k) h = note (closed k) (record h { pc = joining })
-- When the threads that it joins end is left open.
part now joining h = record h { pc = ended }
part now created h = h
part now serving h = h
part now ended h = h
part now crashed h = h

-- The connection is closed and deleted where there is one.
abbrev pub drop_server : Option ℕ → Handler → Handler
drop_server none h = h
drop_server (some k) h = note (closed k) h

unfoldable pub set_server_connection : Option ℕ → Handler → Handler
set_server_connection conn h = record (drop_server h.server_conn h) { server_conn = conn }

unfoldable pub restart_server_consumer : Handler → Handler
restart_server_consumer h = record h { consumers = checking ∷ h.consumers }

-- The test of the loop of ServerConsumer::run.
abbrev pub receive_or_leave : Bool → Option ℕ → ConsumerPc
receive_or_leave should_restablish none = leaving
receive_or_leave true (some k) = leaving
receive_or_leave false (some k) = receiving k

-- Behind its loop.
unfoldable pub leave : Handler → Handler
leave h = record (drop_server h.server_conn h) { server_conn = none }

-- The body of the loop of restablishConnections. The result of connect is a new connection or NULL.
abbrev pub log_in : ℕ → Option ℕ → Handler → Handler
log_in now none h = h
log_in now (some k) h = note (sent_server k (make now login (c_str h.username))) (note (opened k) h)

unfoldable pub restablish_connection : ℕ → Option ℕ → Handler → Handler
restablish_connection now conn h =
    restart_server_consumer (set_server_connection conn (log_in now conn h))

-- restablishConnections, the connections being given by connect one after the other.
unfoldable pub remaining : List Handler → List Handler
remaining [] = []
remaining (h ∷ hs) = if is_finished h.pc then remaining hs else h ∷ remaining hs

unfoldable pub restablish_each : ℕ → List (Option ℕ) → List Handler → List Handler
restablish_each now conns [] = []
restablish_each now [] (h ∷ hs) = restablish_connection now none h ∷ restablish_each now [] hs
restablish_each now (conn ∷ conns) (h ∷ hs) =
    restablish_connection now conn h ∷ restablish_each now conns hs

unfoldable pub restablish_connections : ℕ → List (Option ℕ) → List Handler → List Handler
restablish_connections now conns handlers = restablish_each now conns (remaining handlers)

-- The handler of a client that main accepts. m_serverConn is a new connection or NULL.
abbrev pub connected : Option ℕ → List Entry
connected none = []
connected (some k) = opened k ∷ []

unfoldable pub accepted : Option ℕ → Handler
accepted conn = record {
  server_conn = conn;
  username = [];
  pc = created;
  consumers = [];
  log = connected conn;
}
