-- ===== src/Profile/Wire.antt =====
-- The text form of a user that is sent to the replicas.
use mathlib.Core.List.{cons-ne-nil}
use twitter_clone.Prelude.{
  ℕ, ◌<◌, ◌≤◌, ◌≡◌, ◌≢◌, refl, ap, ◌∙◌, Bool, true, List, [], ◌∷◌, ◌++◌, some, arith, length, All,
  All-append, Bytes, Lacks, codes, pos, IsInt, int_max, ltb_ℤ, if◌then◌else◌,
}
use twitter_clone.Text.{split, join_string_list}
use twitter_clone.Text.Split.{split-join, join_string_list-eq, glue, join_list_loop-glue}
use twitter_clone.Text.Pieces.{pieces, pieces-append, pieces-ne-nil, split-pieces}
use twitter_clone.Numbers.{print, print_int}
use twitter_clone.Numbers.Digits.{print-Lacks, print_int-Lacks}
use twitter_clone.Numbers.RoundTrip.{stoi-print_int, stoi-print}
use twitter_clone.Profile.{
  User, blank_user, serialize, deserialize, deserialize_parts, serialize_sessions,
}

-- Names without the separators of the text form, and numbers that fit.
pub record IsWritable (u : User) : Type 0 where
  pub id_fits : IsInt u.id
  pub username_plain : Lacks b' ' u.username
  pub followers_plain : All (Lacks b' ') u.followers
  pub followers_whole : All (Lacks b',') u.followers
  pub followers_fit : length u.followers ≤ int_max

glue-Lacks :
    (b : ℕ) → b < 44 → (names : List Bytes) → All (Lacks b) names → Lacks b (glue (codes ",") names)
unfolding glue
glue-Lacks b k [] h = tt
glue-Lacks b k (n ∷ names) h =
    (omega arith, All-append (λ c. c ≢ b) n (glue (codes ",") names) h.0 (glue-Lacks b k names h.1))

pub join-Lacks :
    (b : ℕ)
    → b < 44
    → (names : List Bytes) → All (Lacks b) names
    → Lacks b (join_string_list names (codes ","))
unfolding join_string_list
join-Lacks b k [] h = tt
join-Lacks b k (n ∷ names) h =
    rw (join_list_loop-glue (codes ",") names n)
      (All-append (λ c. c ≢ b) n (glue (codes ",") names) h.0 (glue-Lacks b k names h.1))

pieces-cons : (s : Bytes) → (q : Bytes) × (ps : List Bytes) × (pieces b' ' s ≡ q ∷ ps)
pieces-cons s = go (pieces b' ' s) (pieces-ne-nil b' ' s)
  where
    go : (xs : List Bytes) → xs ≢ [] → (q : Bytes) × (ps : List Bytes) × (xs ≡ q ∷ ps)
    go [] h = absurd (h refl)
    go (x ∷ xs) h = (x, xs, refl)

-- Behind the followers there are at least two more words.
tail : User → Bytes
tail u = print (length u.sessions) ++ (codes " " ++ serialize_sessions true u.sessions)

pieces-tail :
    (u : User) → (p : Bytes) × (q : Bytes) × (ps : List Bytes) × (pieces b' ' (tail u) ≡ p ∷ q ∷ ps)
unfolding tail
pieces-tail u =
    let rest = serialize_sessions true u.sessions in
    let (q, ps, e) = pieces-cons rest in
    (
      print (length u.sessions),
      q,
      ps,
      pieces-append b' ' (print (length u.sessions)) rest
            (print-Lacks b' ' (omega arith) (length u.sessions))
          ∙ ap (λ t. print (length u.sessions) ∷ t) e,
    )

pieces-serialize :
    (u : User)
    → IsWritable u
    → pieces b' ' (serialize u)
      ≡ print_int u.id
        ∷ u.username
        ∷ print (length u.followers)
        ∷ join_string_list u.followers (codes ",")
        ∷ pieces b' ' (tail u)
unfolding serialize tail
pieces-serialize u v =
    pieces-append b' ' (print_int u.id) _ (print_int-Lacks b' ' (omega arith) u.id)
    ∙ ap (λ t. print_int u.id ∷ t)
        (pieces-append b' ' u.username _ v.username_plain
          ∙ ap (λ t. u.username ∷ t)
              (pieces-append b' ' (print (length u.followers)) _
                  (print-Lacks b' ' (omega arith) (length u.followers))
                ∙ ap (λ t. print (length u.followers) ∷ t)
                    (pieces-append b' ' (join_string_list u.followers (codes ",")) _
                      (join-Lacks b' ' (omega arith) u.followers v.followers_plain))))

-- The words between the commas are the followers; where there is none, the size keeps the one
-- empty word out.
read_followers :
    (fs : List Bytes)
    → All (Lacks b',') fs
    → (names : List Bytes) × (split (join_string_list fs (codes ",")) (codes ",") ≡ some names)
      × ((if ltb_ℤ (pos 0) (pos (length fs)) then names else []) ≡ fs)
read_followers [] h = (
  pieces b',' (join_string_list [] (codes ",")),
  split-pieces (join_string_list [] (codes ",")) b',',
  refl,
)
read_followers (f ∷ fs) h = (
  f ∷ fs,
  rw (join_string_list-eq (f ∷ fs) (codes ",")) (split-join (f ∷ fs) b',' (cons-ne-nil f fs) h),
  ground arith,
)

if-followers :
    (b : Bool) (u : User) (names fs : List Bytes)
    → (if b then names else []) ≡ fs
    → (if b
        then record u { followers = names; sessions = [] }
        else record u { followers = []; sessions = [] })
      ≡ record u { followers = fs; sessions = [] }
if-followers b u names fs h = ground arith

-- A user's id, name and followers arrive at a replica as they were; the sessions do not: the
-- user who is read has none.
pub deserialize-serialize_user :
    (u : User)
    → IsWritable u
    → deserialize blank_user (serialize u) ≡ some (record u { sessions = [] })
unfolding deserialize deserialize_parts blank_user
deserialize-serialize_user u v =
    let (p, q, ps, e) = pieces-tail u in
    rw (split-pieces (serialize u) b' ', pieces-serialize u v)
      (rw e (
        rw (stoi-print_int u.id v.id_fits) (
          rw (stoi-print (length u.followers) v.followers_fit) (
            let (names, run, same) = read_followers u.followers v.followers_whole in
            rw run (ap some (if-followers _ u names u.followers same))))))
