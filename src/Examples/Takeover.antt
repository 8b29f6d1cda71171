-- ===== src/Examples/Takeover.antt =====
-- A replica that takes over from the leader.
use twitter_clone.Prelude.{
  ◌≡◌, false, ◌<◌, refl, arith, true, List, [], ◌∷◌, ◌++◌, map, none, codes, pos, All, length,
}
use twitter_clone.Prelude.Map.{Map, find}
use twitter_clone.Prelude.Distinct.{DistinctKeys}
use twitter_clone.Text.{size_mod, join_string_list}
use twitter_clone.Numbers.{print, print_int}
use twitter_clone.Packet.{Packet}
use twitter_clone.Packet.Types.{update_profile}
use twitter_clone.Profile.{User, serialize, serialize_sessions, serialize_session}
use twitter_clone.Profile.Wire.{IsWritable}
use twitter_clone.Profile.Manager.{serialize_users}
use twitter_clone.Profile.Manager.Wire.{IsSent, user_line}
use twitter_clone.Replication.Manager.{ReplicaManager, Message, message, send_profile_update}
use twitter_clone.Replication.Handler.{ReplicaHandler}
use twitter_clone.Replication.Update.{others}
use twitter_clone.Replication.Takeover.{Brings, send_profile_update_lem}
use twitter_clone.Frontend.{Handler}
use twitter_clone.Examples.Replicas.{leader, first}
use twitter_clone.Examples.Serving.{empty_server}
use twitter_clone.Examples.Forwarding.{raised}

abbrev amy : User
amy = record {
  id = pos 1;
  username = codes "@amy";
  followers = codes "@bob" ∷ [];
  sessions = record { thread_id = 7; username = codes "@amy" } ∷ [];
}

abbrev users : Map User
users = (codes "@amy", amy) ∷ []

amy_fits : length (user_line (codes "@amy", amy)) < size_mod
unfolding serialize serialize_sessions serialize_session print print_int join_string_list
amy_fits = omega arith

amy-IsWritable : IsWritable amy
amy-IsWritable = record {
  id_fits = omega arith;
  username_plain = omega arith;
  followers_plain = omega arith;
  followers_whole = omega arith;
  followers_fit = omega arith;
}

amy-IsSent : IsSent (codes "@amy", amy)
amy-IsSent = record {
  name_visible = omega arith;
  writable = amy-IsWritable;
  username_visible = omega arith;
  followers_visible = omega arith;
  sessions_visible = omega arith;
  text_fits = amy_fits;
}

one_name : DistinctKeys users
unfolding find
one_name = (refl, tt)

abbrev leader_of_amy : ReplicaManager
leader_of_amy = record leader { profiles = record leader.profiles { users = users } }

send_profile_update_example :
    (sent : List Message) × ((send_profile_update leader_of_amy).sent ≡ [] ++ sent)
    × (map (λ x. x.conn) sent ≡ others leader_of_amy.info leader_of_amy.replicas_vector)
    × All (Brings users) sent
send_profile_update_example = send_profile_update_lem leader_of_amy (amy-IsSent, tt) one_name

abbrev of_amy : Handler
of_amy = record raised.0.handler { username = codes "@amy" }

abbrev update : Packet
update = record {
  length = pos (length (serialize_users users));
  type = update_profile;
  sequence_number = pos 0;
  timestamp = 0;
  payload = (message 4 update_profile (serialize_users users)).payload;
}

abbrev replica : ReplicaHandler
replica = record {
  info = first;
  profiles = record { users = []; file = none; updates = [] };
  notifications = empty_server.notifications;
  is_running_election = false;
  is_connected_to_leader = true;
  lost_election = false;
  spare_byte = true;
  woken = 0;
  answers = [];
}
