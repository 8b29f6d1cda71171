-- ===== src/Profile/Manager/Stored.antt =====
-- The rows of Users.db that stand for the users in memory, and how each method changes them.
use twitter_clone.Prelude.{
  ◌≡◌, ◌≢◌, refl, sym, ap, ◌∙◌, subst, false, List, [], ◌∷◌, ◌++◌, map, Option, none, some, arith,
  Bytes, bytes_eq, bytes_eq_iff, bytes_eq_comm, inl, inr, Bool-cases, All,
}
use twitter_clone.Prelude.Map.{Map, find, assign, find-assign_ne}
use twitter_clone.Prelude.Distinct.{find-concat, absent}
use twitter_clone.Csv.{write_rows, add_columns}
use twitter_clone.Csv.Table.{IsRow, IsColumn, EndsFull}
use twitter_clone.Csv.Reading.{IsTable}
use twitter_clone.Csv.Writing.{append-write_rows, append_first, append_to_line-write_rows}
use twitter_clone.Profile.{User}
use twitter_clone.Profile.Followers.{contains}
use twitter_clone.Profile.Persistency.{split_char, open_writer, save_new_user, save_new_follower}

-- A name that the file can express.
pub record IsWord (name : Bytes) : Type 0 where
  pub not_empty : name ≢ []
  pub plain : IsColumn split_char name

-- The same names, in whichever order.
abbrev pub SameNames : List Bytes → List Bytes → Type 0
SameNames xs ys = (x : Bytes) → contains xs x ≡ contains ys x

-- A row with a user's name and then her followers.
abbrev pub Describes : List Bytes → Bytes → User → Type 0
Describes [] name u = ⊥
Describes (c ∷ names) name u =
    (c ≡ name)
    × IsWord c
    × All IsWord names
    × (u.username ≡ c)
    × SameNames u.followers names
    × (contains u.followers c ≡ false)

-- One row for each user, in their order, and no name twice.
abbrev pub Matches : List (List Bytes) → Map User → Type 0
Matches [] [] = Unit
Matches [] (_ ∷ _) = ⊥
Matches (_ ∷ _) [] = ⊥
Matches (row ∷ rows) ((name, u) ∷ users) =
    Describes row name u × (find name users ≡ none) × Matches rows users

-- The file of these rows; there is none before the first user.
abbrev pub stored : List (List Bytes) → Option Bytes
stored [] = none
stored (row ∷ rows) = some (write_rows split_char (row ∷ rows))

words-EndsFull :
    (name : Bytes) (names : List Bytes) → IsWord name → All IsWord names → EndsFull (name ∷ names)
words-EndsFull name [] w v = w.not_empty
words-EndsFull name (n ∷ names) w v = words-EndsFull n names v.0 v.1

words-plain : (names : List Bytes) → All IsWord names → All (IsColumn split_char) names
words-plain [] v = tt
words-plain (n ∷ names) v = (v.0.plain, words-plain names v.1)

pub named-IsRow :
    (name : Bytes) (names : List Bytes)
    → IsWord name
    → All IsWord names
    → IsRow split_char (name ∷ names)
named-IsRow name names w v = record {
  ends_full = words-EndsFull name names w v;
  plain = (w.plain, words-plain names v);
}

rows-IsRow :
    (rows : List (List Bytes)) (users : Map User) → Matches rows users → All (IsRow split_char) rows
rows-IsRow [] [] v = tt
rows-IsRow [] (_ ∷ _) v = absurd v
rows-IsRow (_ ∷ _) [] v = absurd v
rows-IsRow ([] ∷ rows) ((name, u) ∷ users) v = absurd v.0
rows-IsRow ((c ∷ names) ∷ rows) ((name, u) ∷ users) v =
    (named-IsRow c names v.0.1 v.0.2, rows-IsRow rows users v.2)

pub Matches-IsTable :
    (row : List Bytes) (rows : List (List Bytes)) (users : Map User)
    → Matches (row ∷ rows) users
    → IsTable split_char (row ∷ rows)
Matches-IsTable row rows users v = record {
  delimiter = omega arith;
  some_row = λ e. cc;
  rows_fit = rows-IsRow (row ∷ rows) users v;
}

-- saveNewUser adds the row of a user without followers.
pub save_new_user-stored :
    (name : Bytes) (rows : List (List Bytes)) (users : Map User)
    → IsWord name
    → Matches rows users
    → save_new_user name (stored rows) ≡ stored (rows ++ (name ∷ []) ∷ [])
unfolding save_new_user open_writer
save_new_user-stored name [] users w v =
    ap (λ r. r.0) (append_first split_char (name ∷ []) (named-IsRow name [] w tt))
save_new_user-stored name (row ∷ rows) users w v =
    ap (λ r. r.0)
      (append-write_rows split_char (row ∷ rows) (name ∷ []) (Matches-IsTable row rows users v)
        (named-IsRow name [] w tt))

-- saveNewFollower adds the follower to the rows with the user's name.
pub save_new_follower-stored :
    (name follower : Bytes) (row : List Bytes) (rows : List (List Bytes)) (users : Map User)
    → IsWord follower
    → Matches (row ∷ rows) users
    → save_new_follower name follower (stored (row ∷ rows))
      ≡ stored (map (add_columns 0 name (follower ∷ [])) (row ∷ rows))
unfolding save_new_follower open_writer
save_new_follower-stored name follower row rows users w v =
    ap (λ r. r.0)
      (append_to_line-write_rows split_char 0 name (follower ∷ []) (row ∷ rows)
        (named-IsRow follower [] w tt) (Matches-IsTable row rows users v))

pub Matches-append :
    (rows : List (List Bytes)) (users : Map User) (row : List Bytes) (name : Bytes) (u : User)
    → Matches rows users
    → find name users ≡ none
    → Describes row name u
    → Matches (rows ++ row ∷ []) (users ++ (name, u) ∷ [])
unfolding find
Matches-append [] [] row name u v h d = (d, refl, tt)
Matches-append [] (_ ∷ _) row name u v h d = absurd v
Matches-append (_ ∷ _) [] row name u v h d = absurd v
Matches-append (r ∷ rows) ((k, w) ∷ users) row name u v h d =
    let (apart, rest) = absent k name w users h in
    (
      v.0,
      find-concat name k u users v.1 (bytes_eq_comm name k ∙ apart),
      Matches-append rows users row name u v.2 rest d,
    )

-- Rows that change with one user's entry and stay otherwise.
module _ (g : List Bytes → List Bytes) (name : Bytes) (u w : User)
    (changed : (row : List Bytes) → Describes row name u → Describes (g row) name w)
    (kept : (row : List Bytes) (k : Bytes) (x : User)
      → Describes row k x
      → bytes_eq k name ≡ false
      → g row ≡ row) where
  others_kept :
      (rows : List (List Bytes)) (users : Map User)
      → Matches rows users
      → find name users ≡ none
      → Matches (map g rows) users
  unfolding find
  others_kept [] [] v h = tt
  others_kept [] (_ ∷ _) v h = absurd v
  others_kept (_ ∷ _) [] v h = absurd v
  others_kept (row ∷ rows) ((k, x) ∷ users) v h =
      let (apart, rest) = absent k name x users h in
      (
        subst (λ r. Describes r k x) (sym (kept row k x v.0 apart)) v.0,
        v.1,
        others_kept rows users v.2 rest,
      )

  pub Matches-assign :
      (rows : List (List Bytes)) (users : Map User)
      → Matches rows users
      → find name users ≡ some u
      → Matches (map g rows) (assign name w users)
  unfolding find assign
  Matches-assign [] [] v h = tt
  Matches-assign [] (_ ∷ _) v h = absurd v
  Matches-assign (_ ∷ _) [] v h = absurd v
  Matches-assign (row ∷ rows) ((k, x) ∷ users) v h = elim (Bool-cases (bytes_eq k name)) [
    | inl e ↦
        let here : k ≡ name = (bytes_eq_iff k name).0 e in
        let same : x ≡ u = ground arith in
        let d : Describes row name u =
          subst (λ n. Describes row n u) here (subst (λ y. Describes row k y) same v.0) in
        rw e (
          subst (λ n. Describes (g row) n w) (sym here) (changed row d),
          v.1,
          others_kept rows users v.2 (ap (λ n. find n users) (sym here) ∙ v.1),
        )
    | inr e ↦ rw e (
      subst (λ r. Describes r k x) (sym (kept row k x v.0 e)) v.0,
      find-assign_ne name k w users (bytes_eq_comm name k ∙ e) ∙ v.1,
      Matches-assign rows users v.2 (ground arith),
    )
  ]
