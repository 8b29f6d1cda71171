-- ===== src/Server/Clients.antt =====
-- src/server/ConnectionHandler.cpp and src/server/ServerHandler.cpp: the threads of all connections
-- over the managers that they share. A move is what one thread does between two calls of a manager,
-- which lock their mutex, and a list of moves is one interleaving.
pub mod Tokens
pub mod Ledger
pub mod Balance
pub mod Restarting
use twitter_clone.Prelude.{
  ℕ, ◌<◌, Bool, List, [], ◌∷◌, ◌++◌, map, Option, none, some, ◌==◌, if◌then◌else◌, Bytes, codes,
}
use twitter_clone.Prelude.Map.{Map}
use twitter_clone.Packet.{Packet}
use twitter_clone.Packet.Types.{PacketType, send, follow, login, success, error, close}
use twitter_clone.Profile.{User, Session}
use twitter_clone.Profile.Sessions.{Fresh}
use twitter_clone.Profile.Manager.{ProfileManager, followers_of, close_session}
use twitter_clone.Profile.Manager
use twitter_clone.Notification.Manager.{NotificationManager}
use twitter_clone.Notification.Manager as Notifications
use twitter_clone.Server.{Response, respond, tweet_of, follow_text, authorize_session}

-- Where a thread stands that serves a client: in receive, in SendTweetRoute between the two managers
-- with the text and the followers, or behind its loop.
pub data Stage : Type 0 where
  idle : Stage
  publishing : Bytes → List Bytes → Stage
  leaving : Stage

pub record Client : Type 0 where
  -- sessionToken.
  pub token : Session
  pub stage : Stage
  pub responses : List Response

pub record Service : Type 0 where
  pub profiles : ProfileManager
  pub notifications : NotificationManager
  -- The threads that serve a client, in the order of their logins.
  pub clients : List Client
  -- The threads that sent "Connection refused.".
  pub refused : List ℕ

pub data Move : Type 0 where
  -- A connection is accepted, and its thread receives a first packet or none, at a time.
  connects : ℕ → ℕ → Option Packet → Move
  -- The thread receives a packet, or none.
  receives : ℕ → ℕ → Option Packet → Move
  -- The thread sends the tweet.
  publishes : ℕ → ℕ → Move
  closes : ℕ → Move

abbrev pub answered : Client → PacketType → Bytes → Client
answered c type text = record c { stage = idle; responses = c.responses ++ respond type text ∷ [] }

abbrev pub tokens : List Client → List Session
tokens clients = map (λ c. c.token) clients

unfoldable pub client_at : ℕ → List Client → Option Client
client_at id [] = none
client_at id (c ∷ cs) = if c.token.thread_id == id then some c else client_at id cs

unfoldable pub put : Client → List Client → List Client
put c [] = []
put c (x ∷ xs) = if x.token.thread_id == c.token.thread_id then c ∷ xs else x ∷ put c xs

unfoldable pub gone : ℕ → List Client → List Client
gone id [] = []
gone id (c ∷ cs) = if c.token.thread_id == id then gone id cs else c ∷ gone id cs

module _ (on_update : Map User → Bool) where
  -- Behind authorizeSession.
  abbrev pub admit : Service → ℕ → ProfileManager × Bytes × ℕ → Service
  admit s id (profiles, username, token) =
      if token == id
      then record s {
        profiles = profiles;
        clients =
            s.clients
            ++ record {
              token = record { thread_id = token; username = username };
              stage = idle;
              responses = respond success [] ∷ [];
            }
              ∷ [];
      }
      else record s { profiles = profiles; refused = s.refused ++ id ∷ [] }

  -- One round of the loop, up to the second manager for a tweet.
  unfoldable pub take : ℕ → ProfileManager → Client → PacketType → Bytes → ProfileManager × Client
  take now m c send text =
      (m, record c { stage = publishing text (followers_of m c.token.username) })
  take now m c follow text =
      let (m', done) = Manager.follow on_update m c.token.username text in
      (m', answered c success (follow_text on_update now done text))
  take now m c login text = (m, answered c error (codes "Already logged in."))
  take now m c close text = (m, record c { stage = leaving })
  take now m c _ text = (m, answered c error (codes "Bad request."))

  abbrev pub receive_packet : ℕ → ProfileManager → Client → Option Packet → ProfileManager × Client
  receive_packet now m c none = (m, record c { stage = leaving })
  receive_packet now m c (some p) = take now m c p.type p.payload

  abbrev pub put_result : Service → ProfileManager × Client → Service
  put_result s (m, c) = record s { profiles = m; clients = put c s.clients }

  -- A thread that stands elsewhere, or nowhere, does not make the move.
  abbrev pub receive_at : Service → Client → Stage → ℕ → Option Packet → Service
  receive_at s c idle now p = put_result s (receive_packet now s.profiles c p)
  receive_at s c _ now p = s

  abbrev pub publish_at : Service → Client → Stage → ℕ → Service
  publish_at s c (publishing text followers) now = record s {
    notifications =
        Notifications.send s.notifications (tweet_of on_update now followers c.token.username text)
          followers;
    clients = put (answered c success (codes "Sent!")) s.clients;
  }
  publish_at s c _ now = s

  abbrev pub close_at : Service → Client → Stage → Service
  close_at s c leaving = record s {
    profiles = close_session s.profiles c.token.username c.token.thread_id;
    clients = gone c.token.thread_id s.clients;
  }
  close_at s c _ = s

  abbrev pub with_client : (Client → Service) → Service → Option Client → Service
  with_client act s none = s
  with_client act s (some c) = act c

  unfoldable pub move : Service → Move → Service
  move s (connects id now first) = admit s id (authorize_session on_update now s.profiles id first)
  move s (receives id now p) =
      with_client (λ c. receive_at s c c.stage now p) s (client_at id s.clients)
  move s (publishes id now) =
      with_client (λ c. publish_at s c c.stage now) s (client_at id s.clients)
  move s (closes id) = with_client (λ c. close_at s c c.stage) s (client_at id s.clients)

  unfoldable pub run_moves : Service → List Move → Service
  run_moves s [] = s
  run_moves s (x ∷ xs) = run_moves (move s x) xs

  -- A new thread has an id that is not 0 and that no living thread has.
  abbrev pub IsNew : Service → Move → Type 0
  IsNew s (connects id now first) = (0 < id) × Fresh id (tokens s.clients)
  IsNew s _ = Unit

  unfoldable pub AllNew : Service → List Move → Type 0
  AllNew s [] = Unit
  AllNew s (x ∷ xs) = IsNew s x × AllNew (move s x) xs
