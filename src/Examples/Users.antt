-- ===== src/Examples/Users.antt =====
-- Files, users and their managers.
use twitter_clone.Prelude.{
  ◌≡◌, refl, true, List, [], ◌∷◌, map, none, some, arith, Bytes, codes, pos, bytes_eq, not, ◌&&◌,
  ◌||◌,
}
use twitter_clone.Csv.{write_rows, append_to_line, add_columns}
use twitter_clone.Csv.Table.{IsRow}
use twitter_clone.Csv.Reading.{IsTable}
use twitter_clone.Csv.Writing.{append_to_line-write_rows}
use twitter_clone.Profile.{User, Session, add_follower}
use twitter_clone.Profile.Followers.{FollowersIsValid, contains, add_follower_lem}
use twitter_clone.Profile.Manager.{ProfileManager, load_users}
use twitter_clone.Profile.Manager.History.{Call, follows, starts, closes, run}
use twitter_clone.Profile.Manager.Invariant.{AllValid, run-AllValid}
use twitter_clone.Profile.Manager.Storing.{IsStored}
use twitter_clone.Profile.Manager.Reload.{Reloaded, load_users-run}

abbrev two_rows : List (List Bytes)
two_rows = (codes "@a" ∷ codes "@b" ∷ []) ∷ (codes "@b" ∷ []) ∷ []

two_rows-IsTable : IsTable b';' two_rows
two_rows-IsTable = record {
  delimiter = omega arith;
  some_row = λ e. cc;
  rows_fit = (
    record { ends_full = λ e. cc; plain = omega arith },
    (record { ends_full = λ e. cc; plain = omega arith }, tt),
  );
}

added-IsRow : IsRow b';' (codes "@c" ∷ [])
added-IsRow = record { ends_full = λ e. cc; plain = omega arith }

append_to_line-write_rows_example :
    append_to_line b';' 0 (codes "@b") (codes "@c" ∷ []) (some (write_rows b';' two_rows))
    ≡ (some (write_rows b';' (map (add_columns 0 (codes "@b") (codes "@c" ∷ [])) two_rows)), true)
append_to_line-write_rows_example =
    append_to_line-write_rows b';' 0 (codes "@b") (codes "@c" ∷ []) two_rows added-IsRow
      two_rows-IsTable

abbrev first_session : Session
first_session = record { thread_id = 11; username = codes "@a" }

abbrev second_session : Session
second_session = record { thread_id = 12; username = codes "@a" }

abbrev alice : User
alice = record {
  id = pos 1;
  username = codes "@a";
  followers = codes "@c" ∷ codes "@b" ∷ [];
  sessions = first_session ∷ second_session ∷ [];
}

alice-FollowersIsValid : FollowersIsValid alice
unfolding contains bytes_eq
alice-FollowersIsValid = record { distinct = (refl, (refl, tt)); not_self = refl }

add_follower_example :
    ((add_follower alice (codes "@d")).1
      ≡ (not (bytes_eq alice.username (codes "@d")) && not (contains alice.followers (codes "@d"))))
    × ((x : Bytes)
        → contains (add_follower alice (codes "@d")).0.followers x ≡ (
            contains alice.followers x
            || ((add_follower alice (codes "@d")).1 && bytes_eq (codes "@d") x)))
add_follower_example = add_follower_lem alice (codes "@d")

abbrev one_user : ProfileManager
one_user = record { users = (codes "@a", alice) ∷ []; file = none; updates = [] }

abbrev history : List Call
history =
    starts (codes "@z") first_session
    ∷ follows (codes "@z") (codes "@a")
    ∷ closes (codes "@a") 11
    ∷ []

run-AllValid_example : AllValid (run (λ users. true) one_user history).users
run-AllValid_example =
    run-AllValid (λ users. true) one_user history
      (record { named = refl; followers = alice-FollowersIsValid; sessions = omega arith }, tt)

abbrev nobody : ProfileManager
nobody = record { users = []; file = none; updates = [] }

abbrev first_follow : List Call
first_follow =
    starts (codes "@z") first_session
    ∷ starts (codes "@a") second_session
    ∷ follows (codes "@z") (codes "@a")
    ∷ []

load_users-run_example :
    (m : ProfileManager) × (load_users (run (λ users. true) nobody first_follow) ≡ some m)
    × Reloaded 1 (run (λ users. true) nobody first_follow).users m.users
    × IsStored m
load_users-run_example =
    load_users-run (λ users. true) nobody first_follow ([], refl, tt)
      (
        record { not_empty = λ e. cc; plain = omega arith },
        (record { not_empty = λ e. cc; plain = omega arith }, tt),
      )
