-- ===== src/Examples/Forwarding.antt =====
-- A client whose leader is replaced, at a front-end.
use twitter_clone.Prelude.{refl, arith, [], some, codes}
use twitter_clone.Packet.{Packet, make}
use twitter_clone.Packet.Types.{login, send, new_leader}
use twitter_clone.Frontend.{
  accepted, start, handle, restablish_connection, set_server_connection, restart_server_consumer,
}
use twitter_clone.Frontend.System.{
  System, Reach, begun, later, begin, client_sends, restablish, clear, Fresh,
}
use twitter_clone.Frontend.Open.{Orderly}
use twitter_clone.Frontend.Orderly.{Reach-Orderly}
use twitter_clone.Frontend.Accounts.{Accounts, Reach-Accounts}

abbrev amy : Packet
amy = make 1 login (codes "@amy")

abbrev hi : Packet
hi = make 2 send (codes "hi")

abbrev serving_amy : (s : System) × Reach (some 0) s
unfolding accepted start handle make
serving_amy = (_, later (later begun (begin refl)) (client_sends 1 amy refl))

abbrev pub raised : (s : System) × Reach (some 0) s
unfolding accepted start handle make
raised = (_, later serving_amy.1 (client_sends 2 (make 2 new_leader []) refl))

unused : Fresh 1 raised.0.handler.log
unfolding accepted start handle make
unused = omega arith

abbrev reconnected : (s : System) × Reach (some 0) s
unfolding accepted start handle make restablish_connection set_server_connection
    restart_server_consumer
reconnected = (
  _,
  later (later (later raised.1 (restablish 3 (some 1) refl refl refl refl unused)) (clear refl))
      (client_sends 4 hi refl),
)

Reach-Orderly_example : Orderly reconnected.0.handler.log
Reach-Orderly_example = Reach-Orderly (some 0) reconnected.0 reconnected.1

Reach-Accounts_example :
    Accounts reconnected.0.handler.log reconnected.0.received reconnected.0.delivered
Reach-Accounts_example = Reach-Accounts (some 0) reconnected.0 reconnected.1
