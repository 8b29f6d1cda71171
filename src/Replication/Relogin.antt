-- ===== src/Replication/Relogin.antt =====
-- A client whose front-end logs it in again at a replica that has become the leader.
use twitter_clone.Prelude.{Bool, true}
use twitter_clone.Prelude.Map.{Map}
use twitter_clone.Packet.{Packet}
use twitter_clone.Profile.{User}
use twitter_clone.Frontend.{Handler}
use twitter_clone.Server.{Server}

-- The callback of the manager: sendProfileUpdate gives true.
abbrev pub updated : Map User → Bool
updated users = true
