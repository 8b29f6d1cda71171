-- ===== src/Server/Accepting.antt =====
-- src/server/ServerHandler.cpp: the thread that accepts the clients' connections.
use twitter_clone.Prelude.{ℕ, Bool, true, false, List, [], ◌∷◌, Bytes, ℤ}

-- The address that the handler is given; the managers are those of the threads that it starts.
pub record ServerHandler : Type 0 where
  pub ip : Bytes
  pub port : ℤ

-- A round of the loop: accept gives NULL, the thread cannot be made, or it is started with an id.
pub data Attempt : Type 0 where
  no_connection no_thread : Attempt
  started : ℕ → Attempt

-- The threads of the rounds; an error ends none of the others.
unfoldable pub accept_all : List Attempt → List ℕ
accept_all [] = []
accept_all (no_connection ∷ attempts) = accept_all attempts
accept_all (no_thread ∷ attempts) = accept_all attempts
accept_all (started id ∷ attempts) = id ∷ accept_all attempts

-- run, with whether the server socket starts. It listens at DEFAULT_SERVER_PORT, whatever m_port is.
unfoldable pub run : Bool → List Attempt → List ℕ
run true attempts = accept_all attempts
run false attempts = []
