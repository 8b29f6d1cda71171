-- ===== src/Replication.antt =====
-- src/server/replication: what the replicas know of each other, in ReplicaInfo.hpp, and the text
-- forms that they exchange, in ReplicaManager.cpp.
pub mod Wire
pub mod Manager
pub mod Handler
pub mod Handshake
pub mod Election
pub mod Update
pub mod Running
pub mod Leader
pub mod Waiting
pub mod Takeover
pub mod Relogin
use twitter_clone.Prelude.{
  ℕ, Bool, not, ◌&&◌, ◌||◌, List, [], ◌∷◌, ◌++◌, Option, some, if◌then◌else◌, is_empty, Bytes,
  bytes_eq, codes, ℤ, pos, negsuc, ltb_ℤ, int_eq,
}
use twitter_clone.Text.{split, split_first}
use twitter_clone.Numbers.{print_int, atoi}
use twitter_clone.Profile.{◌>>=◌}

pub record ReplicaInfo : Type 0 where
  pub id : ℤ
  pub ip : Bytes
  pub port : ℤ

-- ReplicaInfo().
unfoldable pub no_replica : ReplicaInfo
no_replica = record { id = negsuc 0; ip = []; port = negsuc 0 }

abbrev pub is_negative : ℤ → Bool
is_negative z = ltb_ℤ z (pos 0)

unfoldable pub is_valid : ReplicaInfo → Bool
is_valid r = not (is_negative r.id && (is_negative r.port && is_empty r.ip))

unfoldable pub serialize : ReplicaInfo → Bytes
serialize r = print_int r.id ++ (codes " " ++ (r.ip ++ (codes " " ++ print_int r.port)))

abbrev pub info_of : List Bytes → ReplicaInfo
info_of (id ∷ ip ∷ port ∷ []) = record { id = atoi id; ip = ip; port = atoi port }
info_of _ = no_replica

-- `none`: the loop of split does not end, which a delimiter that is not empty rules out.
unfoldable pub deserialize : Bytes → Option ReplicaInfo
deserialize raw = do splits ← split raw (codes " "); some (info_of splits)

-- ReplicaManager::serialize, with its loop over the replicas behind the first.
unfoldable pub serialize_rest : Bytes → List ReplicaInfo → Bytes
serialize_rest serial [] = serial
serialize_rest serial (r ∷ rs) = serialize_rest (serial ++ (codes "\n" ++ serialize r)) rs

unfoldable pub serialize_replicas : List ReplicaInfo → Bytes
serialize_replicas [] = []
serialize_replicas (r ∷ rs) = serialize_rest (serialize r) rs

-- ReplicaManager::deserialize.
unfoldable pub deserialize_lines : List Bytes → Option (List ReplicaInfo)
deserialize_lines [] = some []
deserialize_lines (raw ∷ raws) = do r ← deserialize raw; rs ← deserialize_lines raws; some (r ∷ rs)

unfoldable pub deserialize_replicas : Bytes → Option (List ReplicaInfo)
deserialize_replicas payload = do splits ← split payload (codes "\n"); deserialize_lines splits

-- The payload of REPLICAS in sendState.
unfoldable pub state_payload : ℤ → List ReplicaInfo → Bytes
state_payload id replicas = print_int id ++ (codes "\n" ++ serialize_replicas replicas)

abbrev pub read_replicas : Bytes → Option (List ReplicaInfo)
read_replicas raw = if is_empty raw then some [] else deserialize_replicas raw

abbrev pub state_of : ReplicaInfo → List Bytes → Option (ReplicaInfo × List ReplicaInfo)
state_of info (id ∷ rest ∷ []) = do
  replicas ← read_replicas rest
  some (record info { id = atoi id }, replicas)
state_of info _ = some (info, [])

-- receiveState, of the payload that was received: this replica with its id, and the others.
unfoldable pub receive_state : ReplicaInfo → Bytes → Option (ReplicaInfo × List ReplicaInfo)
receive_state info payload =
    if is_empty payload then some (info, []) else state_of info (split_first payload (codes "\n"))

-- `isNotEqualToMe`, and the order by id: a smaller id ranks higher.
unfoldable pub is_not_me : ReplicaInfo → ReplicaInfo → Bool
is_not_me me r = not (bytes_eq r.ip me.ip) || not (int_eq r.port me.port)

unfoldable pub ranks_above : ReplicaInfo → ReplicaInfo → Bool
ranks_above r me = ltb_ℤ r.id me.id
