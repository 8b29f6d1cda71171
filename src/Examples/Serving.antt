-- ===== src/Examples/Serving.antt =====
-- A client who logs in, follows, tweets and leaves.
use twitter_clone.Prelude.{
  refl, arith, bytes_eq, ◌+◌, ◌≡◌, Bool, true, List, [], ◌∷◌, some, length, take_while, Bytes,
  codes, pos,
}
use twitter_clone.Prelude.Map.{Map, find}
use twitter_clone.Packet.{Packet}
use twitter_clone.Packet.Types.{PacketType, login, follow, send, close}
use twitter_clone.Profile.{User}
use twitter_clone.Profile.Manager.Invariant.{AllValid}
use twitter_clone.Server.{Server, serve, run}
use twitter_clone.Profile.Manager.Sessions.{sessions_at}
use twitter_clone.Server.Sessions.{run_connection-sessions}
use twitter_clone.Server.Service.{goes_on, length-serve, run_connection-AllValid}

abbrev pub empty_server : Server
empty_server = record {
  profiles = record { users = []; file = some []; updates = [] };
  notifications = record {
    next_id = 1;
    notifications = [];
    pending_queues = [];
    inboxes = λ address. [];
    updates = 0;
  };
  responses = [];
}

abbrev pub request : PacketType → Bytes → Packet
request type text = record {
  length = pos (length text);
  type = type;
  sequence_number = pos 0;
  timestamp = 0;
  payload = text;
}

abbrev pub requests : List Packet
requests =
    request follow (codes "@bob")
    ∷ request send (codes "hello")
    ∷ request close []
    ∷ request send (codes "late")
    ∷ []

abbrev accept_update : Map User → Bool
accept_update users = true

length-serve_example :
    length (serve accept_update 0 empty_server (codes "@amy") requests).responses
    ≡ 0 + length (take_while goes_on requests)
length-serve_example = length-serve accept_update 0 empty_server (codes "@amy") requests

run_connection_example :
    AllValid
      (run accept_update 0 empty_server 3
        (some (request login (codes "@amy")))
        requests).profiles.users
run_connection_example =
    run_connection-AllValid accept_update 0 empty_server 3 (some (request login (codes "@amy")))
      requests tt

abbrev amy : User
amy = record {
  id = pos 1;
  username = codes "@amy";
  followers = [];
  sessions = record { thread_id = 8; username = codes "@amy" } ∷ [];
}

abbrev pub server_of_amy : Server
server_of_amy = record empty_server {
  profiles = record { users = (codes "@amy", amy) ∷ []; file = some []; updates = [] };
}

amy_known : find (codes "@amy") server_of_amy.profiles.users ≡ some amy
unfolding find bytes_eq
amy_known = refl

run_sessions_example :
    sessions_at
      (codes "@amy")
      (run accept_update 0 server_of_amy 3 (some (request login (codes "@amy"))) requests).profiles
    ≡ some amy.sessions
run_sessions_example =
    run_connection-sessions accept_update 0 server_of_amy 3 (request login (codes "@amy")) requests
      amy refl refl amy_known (omega arith) (tt, tt) (omega arith)
