-- ===== src/Examples/Interleaving.antt =====
-- Two clients under one name at the same time.
use twitter_clone.Prelude.{
  ◌≡◌, ◌≤◌, refl, arith, List, [], ◌∷◌, none, some, codes, length, bytes_eq,
}
use twitter_clone.Prelude.Map.{find, emplace, assign}
use twitter_clone.Packet.Types.{login, send}
use twitter_clone.Profile.{max_sessions_per_user, new_user, add_session}
use twitter_clone.Profile.Manager.{ProfileManager, load_users, start_session, start_new}
use twitter_clone.Profile.Manager.Stored.{IsWord}
use twitter_clone.Profile.Manager.Storing.{IsStored}
use twitter_clone.Profile.Manager.Reload.{Reloaded}
use twitter_clone.Server.Clients.Restarting.{run_moves-load_users}
use twitter_clone.Profile.Manager.Held.{held}
use twitter_clone.Server.{authorize_session}
use twitter_clone.Server.Clients.{
  Service, Move, connects, receives, publishes, closes, run_moves, move, AllNew, tokens, take,
  client_at, put,
}
use twitter_clone.Server.Clients.Tokens.{of_name}
use twitter_clone.Server.Clients.Balance.{run_moves-clients}
use twitter_clone.Replication.Relogin.{updated}
use twitter_clone.Examples.Serving.{empty_server, request}

abbrev nobody_served : Service
nobody_served = record {
  profiles = empty_server.profiles;
  notifications = empty_server.notifications;
  clients = [];
  refused = [];
}

abbrev nothing_stored : Service
nothing_stored = record nobody_served {
  profiles = record { users = []; file = none; updates = [] };
}

abbrev crossing : List Move
crossing =
    connects 7 1 (some (request login (codes "@amy")))
    ∷ receives 7 2 (some (request send (codes "hi")))
    ∷ connects 8 3 (some (request login (codes "@amy")))
    ∷ publishes 7 4
    ∷ receives 7 5 none
    ∷ closes 7
    ∷ []

crossing-AllNew : AllNew updated nobody_served crossing
unfolding AllNew move authorize_session start_session start_new new_user add_session find emplace
    assign bytes_eq take client_at put
crossing-AllNew = omega arith

run_moves-clients_example :
    let t = run_moves updated nobody_served crossing in
    (held (codes "@amy") t.profiles ≡ of_name (codes "@amy") (tokens t.clients))
    × (length (of_name (codes "@amy") (tokens t.clients)) ≤ max_sessions_per_user)
run_moves-clients_example =
    run_moves-clients updated (λ users. refl) nobody_served crossing refl
      (λ name. unfold find in refl) tt crossing-AllNew (codes "@amy")

amy_fits : IsWord (codes "@amy")
amy_fits = record { not_empty = λ e. cc; plain = omega arith }

run_moves-load_users_example :
    (m : ProfileManager) × (load_users (run_moves updated nothing_stored crossing).profiles
      ≡ some m)
    × Reloaded 1 (run_moves updated nothing_stored crossing).profiles.users m.users
    × IsStored m
run_moves-load_users_example =
    run_moves-load_users updated nothing_stored crossing ([], refl, tt) (amy_fits, (amy_fits, tt))
