-- ===== src/Profile/Manager/Wire.antt =====
-- The users that a replica reads from the leader's text.
use twitter_clone.Prelude.{
  ℕ, ◌<◌, ◌≡◌, ◌≢◌, refl, sym, ap, ◌∙◌, Bool, true, false, List, [], ◌∷◌, ◌++◌, map, some, arith,
  length, length-append, lt→ltb, if◌then◌else◌, Bool-cases, inl, inr, All, All-append, Bytes, Lacks,
  codes, append-nil, append_assoc,
}
use twitter_clone.Prelude.Map.{Map, emplace}
use twitter_clone.Prelude.Distinct.{DistinctKeys, NewTo, NewTo-concat, NewTo-empty, emplace-new}
use twitter_clone.Text.{split_first, size_mod, join_string_list}
use twitter_clone.Text.Find.{split_first-Clear}
use twitter_clone.Text.Split.{Lacks-Clear}
use twitter_clone.Text.Rows.{lines_text, split-lines_text, lines_text-Lacks, All-lines}
use twitter_clone.Numbers.{print, print_int}
use twitter_clone.Numbers.Digits.{print-Lacks, print_int-Lacks}
use twitter_clone.Packet.{c_str}
use twitter_clone.Packet.Header.{IsVisible, visible-Lacks, c_str-Lacks}
use twitter_clone.Profile.{
  User, Session, is_valid, serialize, serialize_sessions, serialize_session, ◌>>=◌,
}
use twitter_clone.Profile.Wire.{IsWritable, deserialize-serialize_user, join-Lacks}
use twitter_clone.Profile.Manager.{serialize_users, read_line, read_lines, deserialize_users}

abbrev pub user_line : Bytes × User → Bytes
user_line (name, u) = name ++ (codes " " ++ serialize u)

-- A user with names of visible words, and a text that fits.
pub record IsSent (e : Bytes × User) : Type 0 where
  pub name_visible : All IsVisible e.0
  pub writable : IsWritable e.1
  pub username_visible : All IsVisible e.1.username
  pub followers_visible : All (All IsVisible) e.1.followers
  pub sessions_visible : All (λ (s : Session). All IsVisible s.username) e.1.sessions
  pub text_fits : length (user_line e) < size_mod

-- The valid users, without their sessions.
abbrev pub received : Map User → Map User
received [] = []
received ((name, u) ∷ users) =
    let rest = received users in
    if is_valid u then (name, record u { sessions = [] }) ∷ rest else rest

serialize_users-lines :
    (users : Map User) → serialize_users users ≡ lines_text (map user_line users)
unfolding serialize_users
serialize_users-lines [] = refl
serialize_users-lines ((name, u) ∷ users) =
    ap (λ t. (name ++ (codes " " ++ (serialize u ++ codes "\n"))) ++ t)
      (serialize_users-lines users)
    ∙ simp append_assoc

module _ (b : ℕ) (k : b < 32) where
  session-Lacks : (s : Session) → All IsVisible s.username → Lacks b (serialize_session s)
  unfolding serialize_session
  session-Lacks s h =
      All-append (λ c. c ≢ b) (print s.thread_id) _ (print-Lacks b (omega arith) s.thread_id)
        (omega arith, visible-Lacks b s.username (omega arith) h)

  sessions-Lacks :
      (first : Bool) (ss : List Session)
      → All (λ s. All IsVisible s.username) ss
      → Lacks b (serialize_sessions first ss)
  unfolding serialize_sessions
  sessions-Lacks first [] h = tt
  sessions-Lacks true (s ∷ ss) h =
      All-append (λ c. c ≢ b) (serialize_session s) _ (session-Lacks s h.0)
        (sessions-Lacks false ss h.1)
  sessions-Lacks false (s ∷ ss) h = (
    omega arith,
    All-append (λ c. c ≢ b) (serialize_session s) _ (session-Lacks s h.0)
        (sessions-Lacks false ss h.1),
  )

  names-Lacks : (names : List Bytes) → All (All IsVisible) names → All (Lacks b) names
  names-Lacks [] h = tt
  names-Lacks (n ∷ names) h = (visible-Lacks b n (omega arith) h.0, names-Lacks names h.1)

  serialize-Lacks : (e : Bytes × User) → IsSent e → Lacks b (serialize e.1)
  unfolding serialize
  serialize-Lacks (name, u) v =
      let Plain : ℕ → Type 0 = λ c. c ≢ b in
      All-append Plain (print_int u.id) _ (print_int-Lacks b (omega arith) u.id) (
        omega arith,
        All-append Plain u.username _ (visible-Lacks b u.username (omega arith) v.username_visible)
            (
              omega arith,
              All-append Plain (print (length u.followers)) _
                  (print-Lacks b (omega arith) (length u.followers))
                  (
                    omega arith,
                    All-append Plain (join_string_list u.followers (codes ",")) _
                        (join-Lacks b (omega arith) u.followers
                          (names-Lacks u.followers v.followers_visible))
                        (
                          omega arith,
                          All-append Plain (print (length u.sessions)) _
                              (print-Lacks b (omega arith) (length u.sessions))
                              (omega arith, sessions-Lacks true u.sessions v.sessions_visible),
                        ),
                  ),
            ),
      )

  user_line-Lacks : (e : Bytes × User) → IsSent e → Lacks b (user_line e)
  user_line-Lacks (name, u) v =
      All-append (λ c. c ≢ b) name _ (visible-Lacks b name (omega arith) v.name_visible)
        (omega arith, serialize-Lacks (name, u) v)

split-user_line :
    (name : Bytes) (u : User)
    → IsSent (name, u)
    → split_first (user_line (name, u)) (codes " ") ≡ name ∷ serialize u ∷ []
split-user_line name u v =
    split_first-Clear (codes " ") name (serialize u)
      (Lacks-Clear b' ' name (serialize u) (visible-Lacks b' ' name (omega arith) v.name_visible))
      (omega (arith, v.text_fits, length-append name (codes " " ++ serialize u)))

read_line-user :
    (acc : Map User) (name : Bytes) (u : User)
    → IsSent (name, u)
    → read_line acc (split_first (user_line (name, u)) (codes " "))
      ≡ some (if is_valid u then emplace name (record u { sessions = [] }) acc else acc)
unfolding read_line
read_line-user acc name u v =
    rw (split-user_line name u v)
      (rw (deserialize-serialize_user u v.writable) (unfold is_valid in refl))

-- One line more: its user stands behind the others, if it is valid.
read_lines-user :
    (acc : Map User) (name : Bytes) (u : User) (lines : List Bytes)
    → IsSent (name, u)
    → read_lines acc (user_line (name, u) ∷ lines)
      ≡ read_lines (if is_valid u then emplace name (record u { sessions = [] }) acc else acc) lines
unfolding read_lines
read_lines-user acc name u lines v =
    let some_byte : 0 < length (user_line (name, u)) =
      omega (arith, length-append name (codes " " ++ serialize u)) in
    rw (lt→ltb 0 (length (user_line (name, u))) some_byte)
      (ap (λ o. o >>= (λ users. read_lines users lines)) (read_line-user acc name u v))

read_lines-users :
    (users acc : Map User)
    → All IsSent users
    → DistinctKeys users
    → NewTo acc users
    → read_lines acc (map user_line users ++ [] ∷ []) ≡ some (acc ++ received users)
read_lines-users [] acc h d n = unfold read_lines in ap some (sym (append-nil acc))
read_lines-users ((name, u) ∷ users) acc h d n =
    let found : Bytes × User = (name, record u { sessions = [] }) in
    read_lines-user acc name u (map user_line users ++ [] ∷ []) h.0
    ∙ elim (Bool-cases (is_valid u)) [
      | inl e ↦ rw e (
          ap (λ a. read_lines a (map user_line users ++ [] ∷ [])) (emplace-new name found.1 acc n.0)
          ∙ read_lines-users users (acc ++ found ∷ []) h.1 d.1
              (NewTo-concat name found.1 acc users n.1 d.0)
          ∙ ap some (append_assoc acc (found ∷ []) (received users)))
      | inr e ↦ rw e (read_lines-users users acc h.1 d.1 n.1)
    ]

-- A replica reads the valid users, in their order, with their names, ids and followers and without
-- sessions. Names are visible words, those of
-- followers without commas, and distinct, and numbers and texts fit their types.
pub deserialize-serialize_users :
    (users : Map User)
    → All IsSent users
    → DistinctKeys users
    → deserialize_users (serialize_users users) ≡ some (received users)
unfolding deserialize_users
deserialize-serialize_users users h d = rw (serialize_users-lines users) (
    ap (λ o. o >>= (λ lines. read_lines [] lines))
      (split-lines_text (map user_line users)
        (All-lines (Lacks b'\n') user_line (user_line-Lacks b'\n' (omega arith)) users h))
    ∙ read_lines-users users [] h d (NewTo-empty users))

pub c_str-serialize_users :
    (users : Map User) → All IsSent users → c_str (serialize_users users) ≡ serialize_users users
c_str-serialize_users users h = rw (serialize_users-lines users) (
    c_str-Lacks _ (
      lines_text-Lacks (map user_line users)
        (All-lines (Lacks 0) user_line (user_line-Lacks 0 (omega arith)) users h)))
