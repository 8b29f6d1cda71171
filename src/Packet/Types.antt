-- ===== src/Packet/Types.antt =====
-- The packet types and their names.
use twitter_clone.Prelude.{◌≡◌, refl, Bytes, codes, if◌then◌else◌, bytes_eq}

pub data PacketType : Type 0 where
  ack answer is_alive server_down new_replica replicas new_leader election coordinator : PacketType
  update_profile update_notification : PacketType
  data_type send login follow success error close no_type : PacketType

unfoldable pub type_to_string : PacketType → Bytes
type_to_string answer = codes "ANSWER"
type_to_string ack = codes "ACK"
type_to_string new_replica = codes "NEW_REPLICA"
type_to_string replicas = codes "REPLICAS"
type_to_string is_alive = codes "IS_ALIVE"
type_to_string server_down = codes "SERVER_DOWN"
type_to_string election = codes "ELECTION"
type_to_string new_leader = codes "NEW_LEADER"
type_to_string coordinator = codes "COORDINATOR"
type_to_string update_profile = codes "UPDATE_PROFILE"
type_to_string update_notification = codes "UPDATE_NOTIFICATION"
type_to_string send = codes "SEND"
type_to_string follow = codes "FOLLOW"
type_to_string login = codes "LOGIN"
type_to_string success = codes "SUCCESS"
type_to_string error = codes "ERROR"
type_to_string data_type = codes "DATA"
type_to_string close = codes "CLOSE"
type_to_string no_type = codes "NO_TYPE"

unfoldable pub string_to_type : Bytes → PacketType
unfolding bytes_eq
string_to_type s =
    if bytes_eq s (codes "ACK")
    then ack
    else if bytes_eq s (codes "ANSWER")
    then answer
    else if bytes_eq s (codes "NEW_REPLICA")
    then new_replica
    else if bytes_eq s (codes "REPLICAS")
    then replicas
    else if bytes_eq s (codes "IS_ALIVE")
    then is_alive
    else if bytes_eq s (codes "SERVER_DOWN")
    then server_down
    else if bytes_eq s (codes "ELECTION")
    then election
    else if bytes_eq s (codes "NEW_LEADER")
    then new_leader
    else if bytes_eq s (codes "COORDINATOR")
    then coordinator
    else if bytes_eq s (codes "UPDATE_PROFILE")
    then update_profile
    else if bytes_eq s (codes "UPDATE_NOTIFICATION")
    then update_notification
    else if bytes_eq s (codes "SEND")
    then send
    else if bytes_eq s (codes "FOLLOW")
    then follow
    else if bytes_eq s (codes "LOGIN")
    then login
    else if bytes_eq s (codes "SUCCESS")
    then success
    else if bytes_eq s (codes "ERROR")
    then error
    else if bytes_eq s (codes "DATA")
    then data_type
    else if bytes_eq s (codes "CLOSE")
    then close
    else no_type

-- Every type is read back from its name.
pub string_to_type-type_to_string : (t : PacketType) → string_to_type (type_to_string t) ≡ t
unfolding string_to_type type_to_string
string_to_type-type_to_string ack = refl
string_to_type-type_to_string _ = refl
