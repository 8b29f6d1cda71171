-- ===== src/Frontend/Open.antt =====
-- Which connections of a handler are open, and what each of its functions does to them.
use twitter_clone.Prelude.{
  ℕ, ◌≡◌, ◌≢◌, Bool, true, false, List, [], ◌∷◌, Option, none, some, ◌⊎◌, inl, inr, Bool-cases,
}
use twitter_clone.Packet.{Packet}
use twitter_clone.Frontend.{
  username_after, Entry, Handler, HandlerPc, sent_client, sent_server, opened, closed,
  closed_client, sent_last, created, serving, closing, tested, sending, sent, shutting, joining,
  ended, crashed, note, handle, start, finish, part, test, for_send, for_close, leave,
  is_new_leader, refuse_or_pass, drop_server,
}
use twitter_clone.Frontend.System.{Fresh}

-- Opened, and not closed since.
abbrev pub IsOpen : ℕ → List Entry → Type 0
IsOpen k [] = ⊥
IsOpen k (opened j ∷ log) = (j ≡ k) ⊎ IsOpen k log
IsOpen k (closed j ∷ log) = (j ≢ k) × IsOpen k log
IsOpen k (sent_client p ∷ log) = IsOpen k log
IsOpen k (sent_server j p ∷ log) = IsOpen k log
IsOpen k (closed_client ∷ log) = IsOpen k log
IsOpen k (sent_last j p ∷ log) = IsOpen k log

abbrev pub Orderly : List Entry → Type 0
Orderly [] = Unit
Orderly (sent_server k p ∷ log) = IsOpen k log × Orderly log
Orderly (sent_client p ∷ log) = Orderly log
Orderly (opened k ∷ log) = Orderly log
Orderly (closed k ∷ log) = Orderly log
Orderly (closed_client ∷ log) = Orderly log
Orderly (sent_last k p ∷ log) = Orderly log

abbrev ConnIsOpen : Option ℕ → List Entry → Type 0
ConnIsOpen none log = Unit
ConnIsOpen (some k) log = IsOpen k log

-- Until the client has gone, m_serverConn is NULL or open.
abbrev pub Live : HandlerPc → Option ℕ → List Entry → Type 0
Live created conn log = ConnIsOpen conn log
Live serving conn log = ConnIsOpen conn log
Live _ conn log = Unit

pub record Inv (h : Handler) : Type 0 where
  pub orderly : Orderly h.log
  pub known : (k : ℕ) → h.server_conn ≡ some k → ¬ Fresh k h.log
  pub live : Live h.pc h.server_conn h.log

pub conn-Live :
    (pc : HandlerPc) (conn : Option ℕ) (log : List Entry) → ConnIsOpen conn log → Live pc conn log
conn-Live created conn log h = h
conn-Live serving conn log h = h
conn-Live closing conn log h = tt
conn-Live tested conn log h = tt
conn-Live (sending _) conn log h = tt
conn-Live sent conn log h = tt
conn-Live (shutting _) conn log h = tt
conn-Live joining conn log h = tt
conn-Live ended conn log h = tt
conn-Live crashed conn log h = tt

Live-conn :
    (pc : HandlerPc) (conn : Option ℕ) (log : List Entry)
    → (pc ≡ created) ⊎ (pc ≡ serving)
    → Live pc conn log
    → ConnIsOpen conn log
Live-conn created conn log e h = h
Live-conn serving conn log e h = h
Live-conn closing conn log (inl e) h = absurd cc
Live-conn closing conn log (inr e) h = absurd cc
Live-conn tested conn log (inl e) h = absurd cc
Live-conn tested conn log (inr e) h = absurd cc
Live-conn (sending _) conn log (inl e) h = absurd cc
Live-conn (sending _) conn log (inr e) h = absurd cc
Live-conn sent conn log (inl e) h = absurd cc
Live-conn sent conn log (inr e) h = absurd cc
Live-conn (shutting _) conn log (inl e) h = absurd cc
Live-conn (shutting _) conn log (inr e) h = absurd cc
Live-conn joining conn log (inl e) h = absurd cc
Live-conn joining conn log (inr e) h = absurd cc
Live-conn ended conn log (inl e) h = absurd cc
Live-conn ended conn log (inr e) h = absurd cc
Live-conn crashed conn log (inl e) h = absurd cc
Live-conn crashed conn log (inr e) h = absurd cc

Fresh-older : (k : ℕ) (e : Entry) (log : List Entry) → Fresh k (e ∷ log) → Fresh k log
Fresh-older k (sent_client p) log f = f
Fresh-older k (sent_server j p) log f = f.1
Fresh-older k (opened j) log f = f.1
Fresh-older k (closed j) log f = f.1
Fresh-older k closed_client log f = f
Fresh-older k (sent_last j p) log f = f.1

-- What each of the entries does.
pass-Orderly :
    (now : ℕ) (flag : Bool) (conn : Option ℕ) (p : Packet) (log : List Entry)
    → Orderly log
    → ConnIsOpen conn log
    → Orderly (refuse_or_pass now flag conn p ∷ log)
      × ConnIsOpen conn (refuse_or_pass now flag conn p ∷ log)
pass-Orderly now flag none p log o h = (o, tt)
pass-Orderly now true (some k) p log o h = (o, h)
pass-Orderly now false (some k) p log o h = ((h, o), h)

pub start-Inv : (h : Handler) → h.pc ≡ created → Inv h → Inv (start h)
unfolding start
start-Inv h e i = record {
  orderly = i.orderly;
  known = i.known;
  live = Live-conn h.pc h.server_conn h.log (inl e) i.live;
}

pub handle-Inv :
    (now : ℕ) (flag : Bool) (h : Handler) (p : Packet)
    → h.pc ≡ serving
    → Inv h
    → Inv (handle now flag h p).1
unfolding handle
handle-Inv now flag h p e i =
    let h' = record h { username = username_after p.type p.payload h.username } in
    let entry = refuse_or_pass now flag h.server_conn p in
    let (o, c) =
      pass-Orderly now flag h.server_conn p h.log i.orderly
        (Live-conn h.pc h.server_conn h.log (inr e) i.live) in
    let passed : Inv (note entry h') = record {
      orderly = o;
      known = λ k q f. i.known k q (Fresh-older k entry h.log f);
      live = conn-Live h.pc h.server_conn (entry ∷ h.log) c;
    } in
    let raised : Inv h' = record { orderly = i.orderly; known = i.known; live = i.live } in
    elim (Bool-cases (is_new_leader p.type)) [ inl t ↦ rw t raised | inr t ↦ rw t passed ]

pub finish-Inv : (h : Handler) → Inv h → Inv (finish h)
unfolding finish
finish-Inv h i = record { orderly = i.orderly; known = i.known; live = tt }

test-Live : (conn : Option ℕ) (log : List Entry) → Live (test conn) conn log
test-Live none log = tt
test-Live (some k) log = tt

for_send-Live : (conn : Option ℕ) (log : List Entry) → Live (for_send conn) conn log
for_send-Live none log = tt
for_send-Live (some k) log = tt

for_close-Live : (conn : Option ℕ) (log : List Entry) → Live (for_close conn) conn log
for_close-Live none log = tt
for_close-Live (some k) log = tt

-- What is behind the loop sends nothing else, and needs no open connection any more.
pub part-Inv : (now : ℕ) (pc : HandlerPc) (h : Handler) → Inv h → Inv (part now pc h)
unfolding part
part-Inv now closing h i = record {
  orderly = i.orderly;
  known = i.known;
  live = test-Live h.server_conn h.log;
}
part-Inv now tested h i = record {
  orderly = i.orderly;
  known = i.known;
  live = for_send-Live h.server_conn h.log;
}
part-Inv now (sending k) h i = record {
  orderly = i.orderly;
  known = λ j q f. i.known j q f.1;
  live = tt;
}
part-Inv now sent h i = record {
  orderly = i.orderly;
  known = i.known;
  live = for_close-Live h.server_conn h.log;
}
part-Inv now (shutting k) h i = record {
  orderly = i.orderly;
  known = λ j q f. i.known j q f.1;
  live = tt;
}
part-Inv now joining h i = record { orderly = i.orderly; known = i.known; live = tt }
part-Inv now created h i = i
part-Inv now serving h i = i
part-Inv now ended h i = i
part-Inv now crashed h i = i

pub drop-Orderly :
    (conn : Option ℕ) (h : Handler) → Orderly h.log → Orderly (drop_server conn h).log
drop-Orderly none h o = o
drop-Orderly (some k) h o = o

pub leave-Inv : (h : Handler) → Inv h → Inv (leave h)
unfolding leave
leave-Inv h i = record {
  orderly = drop-Orderly h.server_conn h i.orderly;
  known = λ k q. absurd cc;
  live = conn-Live _ none _ tt;
}
