-- ===== src/Server.antt =====
-- src/server/ConnectionHandler.cpp and src/server/routes: the thread that serves one client. The
-- packets that the client sends are a list, at whose end the connection is lost.
pub mod Accepting
pub mod Clients
pub mod Service
pub mod Sessions
use twitter_clone.Prelude.{
  ℕ, ◌<◌, Bool, true, false, ◌&&◌, List, [], ◌∷◌, ◌++◌, Option, none, some, ltb, ltb_ℤ, ◌==◌,
  if◌then◌else◌, length, is_empty, Bytes, codes, ℤ, pos, to_int,
}
use twitter_clone.Packet.{Packet, c_str}
use twitter_clone.Packet.Types.{PacketType, send, follow, login, success, error, close}
use twitter_clone.Profile.{User}
use twitter_clone.Prelude.Map.{Map}
use twitter_clone.Profile.Manager.{ProfileManager, followers_of, start_session, close_session}
use twitter_clone.Profile.Manager
use twitter_clone.Notification.{Notification, blank_notification}
use twitter_clone.Notification.Manager.{NotificationManager}
use twitter_clone.Notification.Manager as Notifications

-- A packet with a type and a text.
pub record Response : Type 0 where
  pub type : PacketType
  pub text : Bytes

pub record Server : Type 0 where
  pub profiles : ProfileManager
  pub notifications : NotificationManager
  -- What was sent on this connection by this thread.
  pub responses : List Response

abbrev pub respond : PacketType → Bytes → Response
respond type text = record { type = type; text = c_str text }

module _ (on_update : Map User → Bool) (now : ℕ) where
  -- SendTweetRoute::execute.
  unfoldable pub tweet_of : List Bytes → Bytes → Bytes → Notification
  tweet_of followers username text = record (blank_notification now) {
    message = text;
    username = username;
    pending_count = to_int (length followers);
  }

  unfoldable pub send_tweet : Server → Bytes → Bytes → Server × Response
  send_tweet s username text =
      let followers = followers_of s.profiles username in
      (
        record s {
          notifications =
              Notifications.send s.notifications (tweet_of followers username text) followers;
        },
        respond success (codes "Sent!"),
      )

  -- FollowRoute::execute: a success in both cases.
  abbrev pub follow_text : Bool → Bytes → Bytes
  follow_text done name =
      if done
      then codes "Now you are following " ++ name
      else codes "It was not possible to follow " ++ name

  unfoldable pub follow_route : Server → Bytes → Bytes → Server × Response
  follow_route s username name =
      let (profiles, done) = Manager.follow on_update s.profiles username name in
      (record s { profiles = profiles }, respond success (follow_text done name))

  -- One request of a client who is logged in; none is CLOSE.
  unfoldable pub execute : Server → Bytes → PacketType → Bytes → Option (Server × Response)
  execute s username send payload = some (send_tweet s username payload)
  execute s username follow payload = some (follow_route s username payload)
  execute s username login payload = some (s, respond error (codes "Already logged in."))
  execute s username close payload = none
  execute s username _ payload = some (s, respond error (codes "Bad request."))

  abbrev pub answer_with : Server × Response → Server
  answer_with (s, r) = record s { responses = s.responses ++ r ∷ [] }

  abbrev pub respond_and : (Server → Server) → Server → Option (Server × Response) → Server
  respond_and rest s none = s
  respond_and rest s (some result) = rest (answer_with result)

  -- The loop over the requests.
  unfoldable pub serve : Server → Bytes → List Packet → Server
  serve s username [] = s
  serve s username (p ∷ ps) =
      respond_and (λ s'. serve s' username ps) s (execute s username p.type p.payload)

  abbrev pub is_login : PacketType → Bool
  is_login login = true
  is_login _ = false

  -- authorizeSession: the manager, the session's user and the session's id.
  abbrev pub session_token : Bytes → ℕ → ProfileManager × Bool → ProfileManager × Bytes × ℕ
  session_token username thread_id (profiles, true) = (profiles, username, thread_id)
  session_token username thread_id (profiles, false) = (profiles, [], 0)

  unfoldable pub authorize_session : ProfileManager → ℕ → Option Packet → ProfileManager × Bytes × ℕ
  authorize_session profiles thread_id none = (profiles, [], 0)
  authorize_session profiles thread_id (some p) =
      if ltb_ℤ (pos 0) p.length && is_login p.type
      then session_token p.payload thread_id (
          start_session on_update profiles p.payload
            (record { thread_id = thread_id; username = p.payload }))
      else (profiles, [], 0)

  -- Behind the loop: the session is closed.
  unfoldable pub finish : Server → Bytes → ℕ → Server
  finish s username thread_id = record s { profiles = close_session s.profiles username thread_id }

  abbrev pub start_serving : Server → ProfileManager → Server
  start_serving s profiles = record s {
    profiles = profiles;
    responses = s.responses ++ respond success [] ∷ [];
  }

  abbrev pub refuse : Server → ProfileManager → Server
  refuse s profiles = record s {
    profiles = profiles;
    responses = s.responses ++ respond error (codes "Connection refused.") ∷ [];
  }

  -- run, without the consumer of the notifications, which is a thread of its own.
  abbrev pub run_authorized : Server → ℕ → List Packet → ProfileManager × Bytes × ℕ → Server
  run_authorized s thread_id requests (profiles, username, token) =
      if token == thread_id
      then finish (serve (start_serving s profiles) username requests) username token
      else refuse s profiles

  unfoldable pub run : Server → ℕ → Option Packet → List Packet → Server
  run s thread_id first requests =
      run_authorized s thread_id requests (authorize_session s.profiles thread_id first)
