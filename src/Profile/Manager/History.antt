-- ===== src/Profile/Manager/History.antt =====
-- Histories of calls of the profile manager's methods.
use twitter_clone.Prelude.{ℕ, Bool, List, [], ◌∷◌, Bytes}
use twitter_clone.Prelude.Map.{Map}
use twitter_clone.Profile.{User, Session}
use twitter_clone.Profile.Manager.{ProfileManager, follow, start_session, close_session}

-- The calls of the methods that change users.
pub data Call : Type 0 where
  follows : Bytes → Bytes → Call
  starts : Bytes → Session → Call
  closes : Bytes → ℕ → Call

unfoldable pub step : (Map User → Bool) → ProfileManager → Call → ProfileManager
step on_update m (follows follower name) = (follow on_update m follower name).0
step on_update m (starts name s) = (start_session on_update m name s).0
step on_update m (closes name id) = close_session m name id

unfoldable pub run : (Map User → Bool) → ProfileManager → List Call → ProfileManager
run on_update m [] = m
run on_update m (c ∷ cs) = run on_update (step on_update m c) cs
