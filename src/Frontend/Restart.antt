-- ===== src/Frontend/Restart.antt =====
-- The two orders of main and a new ServerConsumer after a connection to a new leader.
use twitter_clone.Packet.{Packet}
use twitter_clone.Frontend.System.{System}
