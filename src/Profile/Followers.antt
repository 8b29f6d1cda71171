-- ===== src/Profile/Followers.antt =====
-- Followers: the list is sorted and searched before a name is added.
use twitter_clone.Prelude.{
  ◌≡◌, refl, Bool, true, false, not, ◌&&◌, ◌||◌, List, [], ◌∷◌, ◌++◌, arith, ◌∙◌, Bytes, bytes_eq,
  bytes_lt, bytes_eq_iff, bytes_lt_irrefl, bytes_lt_trans, bytes_lt_total,
}
use twitter_clone.Profile.{User, sort, insert_sorted, binary_search, add_follower}

unfoldable pub contains : List Bytes → Bytes → Bool
contains [] x = false
contains (y ∷ ys) x = bytes_eq y x || contains ys x

-- No name stands in the list twice.
abbrev pub Distinct : List Bytes → Type 0
Distinct [] = Unit
Distinct (x ∷ xs) = (contains xs x ≡ false) × Distinct xs

-- Nothing behind `x` is less than it.
abbrev Least : Bytes → List Bytes → Type 0
Least x [] = Unit
Least x (y ∷ ys) = (bytes_lt y x ≡ false) × Least x ys

abbrev IsSorted : List Bytes → Type 0
IsSorted [] = Unit
IsSorted (x ∷ xs) = Least x xs × IsSorted xs

-- From `x` not above `y` and `y` not above `z`: `x` is not above `z`.
not_lt_trans : (x y z : Bytes) → bytes_lt y x ≡ false → bytes_lt z y ≡ false → bytes_lt z x ≡ false
not_lt_trans x y z h k = ground (arith, bytes_lt_trans z x y, bytes_lt_total x y)

Least-trans : (x y : Bytes) (ys : List Bytes) → bytes_lt y x ≡ false → Least y ys → Least x ys
Least-trans x y [] h k = tt
Least-trans x y (z ∷ ys) h k = (not_lt_trans x y z h k.0, Least-trans x y ys h k.1)

Least-insert :
    (x y : Bytes) (ys : List Bytes)
    → bytes_lt y x ≡ false
    → Least x ys
    → Least x (insert_sorted y ys)
unfolding insert_sorted
Least-insert x y [] h k = (h, tt)
Least-insert x y (z ∷ ys) h k = ground (arith, Least-insert x y ys h k.1)

lt_asym : (x y : Bytes) → bytes_lt x y ≡ true → bytes_lt y x ≡ false
lt_asym x y h = ground (arith, bytes_lt_trans x y x, bytes_lt_irrefl x)

insert_sorted-IsSorted : (x : Bytes) (ys : List Bytes) → IsSorted ys → IsSorted (insert_sorted x ys)
unfolding insert_sorted
insert_sorted-IsSorted x [] h = (tt, tt)
insert_sorted-IsSorted x (y ∷ ys) h =
    ground
      (arith, insert_sorted-IsSorted x ys h.1, Least-insert y x ys, lt_asym y x, Least-trans x y ys)

sort-IsSorted : (xs : List Bytes) → IsSorted (sort xs)
unfolding sort
sort-IsSorted [] = tt
sort-IsSorted (x ∷ xs) = insert_sorted-IsSorted x (sort xs) (sort-IsSorted xs)

contains-insert_sorted :
    (x y : Bytes) (ys : List Bytes)
    → contains (insert_sorted x ys) y ≡ (bytes_eq x y || contains ys y)
unfolding contains insert_sorted
contains-insert_sorted x y [] = refl
contains-insert_sorted x y (z ∷ ys) = ground (arith, contains-insert_sorted x y ys)

contains-sort : (xs : List Bytes) (y : Bytes) → contains (sort xs) y ≡ contains xs y
unfolding contains sort
contains-sort [] y = refl
contains-sort (x ∷ xs) y = ground (arith, contains-insert_sorted x y (sort xs), contains-sort xs y)

pub contains-append :
    (xs : List Bytes) (y z : Bytes) → contains (xs ++ y ∷ []) z ≡ (contains xs z || bytes_eq y z)
unfolding contains
contains-append [] y z = ground arith
contains-append (x ∷ xs) y z = ground (arith, contains-append xs y z)

above-contains :
    (x : Bytes) (xs : List Bytes)
    → Least x xs
    → (key : Bytes) → bytes_lt key x ≡ true
    → contains xs key ≡ false
unfolding contains
above-contains x [] h key k = refl
above-contains x (y ∷ ys) h key k = ground (arith, above-contains x ys h.1 key, bytes_eq_iff y key)

-- On a sorted list the search decides membership.
binary_search-contains :
    (xs : List Bytes) (key : Bytes) → IsSorted xs → binary_search xs key ≡ contains xs key
unfolding binary_search contains
binary_search-contains [] key h = refl
binary_search-contains (x ∷ xs) key h = ground (
  arith,
  binary_search-contains xs key h.1,
  above-contains x xs h.0 key,
  bytes_eq_iff x key,
  bytes_lt_irrefl key,
  bytes_lt_total x key,
)

Distinct-append :
    (xs : List Bytes) (y : Bytes) → Distinct xs → contains xs y ≡ false → Distinct (xs ++ y ∷ [])
unfolding contains
Distinct-append [] y h k = (refl, tt)
Distinct-append (x ∷ xs) y h k = (
  ground (arith, contains-append xs y x, bytes_eq_iff x y, bytes_eq_iff y x),
  Distinct-append xs y h.1 (ground arith),
)

insert_sorted-Distinct :
    (x : Bytes) (ys : List Bytes)
    → Distinct ys
    → contains ys x ≡ false
    → Distinct (insert_sorted x ys)
unfolding insert_sorted contains
insert_sorted-Distinct x [] h k = (refl, tt)
insert_sorted-Distinct x (y ∷ ys) h k = ground (
  arith,
  insert_sorted-Distinct x ys h.1,
  contains-insert_sorted x y ys,
  bytes_eq_iff x y,
  bytes_eq_iff y x,
)

sort-Distinct : (xs : List Bytes) → Distinct xs → Distinct (sort xs)
unfolding sort
sort-Distinct [] h = tt
sort-Distinct (x ∷ xs) h =
    insert_sorted-Distinct x (sort xs) (sort-Distinct xs h.1) (contains-sort xs x ∙ h.0)

-- Exactly the names that are neither the user's own nor already there are accepted, and the names
-- afterwards are those before and the accepted one.
pub add_follower_lem :
    (u : User) (f : Bytes)
    → ((add_follower u f).1 ≡ (not (bytes_eq u.username f) && not (contains u.followers f)))
      × ((x : Bytes)
          → contains (add_follower u f).0.followers x
            ≡ (contains u.followers x || ((add_follower u f).1 && bytes_eq f x)))
unfolding add_follower
add_follower_lem u f = (
  ground (
    arith,
    binary_search-contains (sort u.followers) f (sort-IsSorted u.followers),
    contains-sort u.followers f,
  ),
  λ x. ground (
    arith,
    binary_search-contains (sort u.followers) f (sort-IsSorted u.followers),
    contains-sort u.followers f,
    contains-sort u.followers x,
    contains-append (sort u.followers) f x,
  ),
)

-- No duplicates, and no user follows herself.
pub record FollowersIsValid (u : User) : Type 0 where
  pub distinct : Distinct u.followers
  pub not_self : contains u.followers u.username ≡ false

-- Adding a follower, accepted or not, keeps the names distinct and the user's own name out.
pub add_follower-IsValid :
    (u : User) (f : Bytes) → FollowersIsValid u → FollowersIsValid (add_follower u f).0
unfolding add_follower
add_follower-IsValid u f v = ground (
  arith,
  sort-Distinct u.followers v.distinct,
  binary_search-contains (sort u.followers) f (sort-IsSorted u.followers),
  Distinct-append (sort u.followers) f,
  contains-sort u.followers u.username,
  contains-append (sort u.followers) f u.username,
  bytes_eq_iff f u.username,
  bytes_eq_iff u.username f,
)
