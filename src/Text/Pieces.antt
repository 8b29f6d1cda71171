-- ===== src/Text/Pieces.antt =====
-- Splitting by one byte, as a recursion over the text.
use mathlib.Core.List.{cons-ne-nil}
use twitter_clone.Prelude.{
  ℕ, ◌≡◌, ◌≢◌, refl, ◌∙◌, subst, List, [], ◌∷◌, ◌++◌, some, arith, ◌==◌, if◌then◌else◌, All, Bytes,
  Lacks,
}
use twitter_clone.Text.{split, join_string_vector}
use twitter_clone.Text.Split.{glue, join_loop-glue, split-join}

abbrev pub cons_head : ℕ → List Bytes → List Bytes
cons_head x [] = (x ∷ []) ∷ []
cons_head x (p ∷ ps) = (x ∷ p) ∷ ps

unfoldable pub pieces : ℕ → Bytes → List Bytes
pieces c [] = [] ∷ []
pieces c (x ∷ s) = let rest = pieces c s in if x == c then [] ∷ rest else cons_head x rest

-- The parts glued together.
abbrev spelled : ℕ → List Bytes → Bytes
spelled c [] = []
spelled c (p ∷ ps) = p ++ glue (c ∷ []) ps

spelled-join : (c : ℕ) (ps : List Bytes) → join_string_vector ps (c ∷ []) ≡ spelled c ps
unfolding join_string_vector
spelled-join c [] = refl
spelled-join c (p ∷ ps) = join_loop-glue (c ∷ []) ps p

pub pieces-ne-nil : (c : ℕ) (s : Bytes) → pieces c s ≢ []
unfolding pieces
pieces-ne-nil c [] = cons-ne-nil [] []
pieces-ne-nil c (x ∷ s) = ground arith

spelled-cons_head :
    (c x : ℕ) (ps : List Bytes) → ps ≢ [] → spelled c (cons_head x ps) ≡ x ∷ spelled c ps
spelled-cons_head c x [] h = absurd (h refl)
spelled-cons_head c x (p ∷ ps) h = refl

spelled-nil : (c : ℕ) (ps : List Bytes) → ps ≢ [] → spelled c ([] ∷ ps) ≡ c ∷ spelled c ps
unfolding glue
spelled-nil c [] h = absurd (h refl)
spelled-nil c (p ∷ ps) h = refl

spelled-pieces : (c : ℕ) (s : Bytes) → spelled c (pieces c s) ≡ s
unfolding pieces
spelled-pieces c [] = unfold glue in refl
spelled-pieces c (x ∷ s) = ground (
  arith,
  spelled-pieces c s,
  spelled-nil c (pieces c s) (pieces-ne-nil c s),
  spelled-cons_head c x (pieces c s) (pieces-ne-nil c s),
)

cons_head-Lacks :
    (c x : ℕ) (ps : List Bytes) → x ≢ c → All (Lacks c) ps → All (Lacks c) (cons_head x ps)
cons_head-Lacks c x [] h k = ((h, tt), tt)
cons_head-Lacks c x (p ∷ ps) h k = ((h, k.0), k.1)

pieces-Lacks : (c : ℕ) (s : Bytes) → All (Lacks c) (pieces c s)
unfolding pieces
pieces-Lacks c [] = (tt, tt)
pieces-Lacks c (x ∷ s) = ground (arith, pieces-Lacks c s, cons_head-Lacks c x (pieces c s))

join-pieces : (c : ℕ) (s : Bytes) → join_string_vector (pieces c s) (c ∷ []) ≡ s
join-pieces c s = spelled-join c (pieces c s) ∙ spelled-pieces c s

-- The loop of split computes the pieces, for every text and every one-byte delimiter.
pub split-pieces : (s : Bytes) (c : ℕ) → split s (c ∷ []) ≡ some (pieces c s)
split-pieces s c =
    subst (λ t. split t (c ∷ []) ≡ some (pieces c s)) (join-pieces c s)
      (split-join (pieces c s) c (pieces-ne-nil c s) (pieces-Lacks c s))

pub pieces-append : (c : ℕ) (a s : Bytes) → Lacks c a → pieces c (a ++ c ∷ s) ≡ a ∷ pieces c s
unfolding pieces
pieces-append c [] s h = ground arith
pieces-append c (x ∷ a) s h = ground (arith, pieces-append c a s h.1)

pieces_whole : (c : ℕ) (a : Bytes) → Lacks c a → pieces c a ≡ a ∷ []
unfolding pieces
pieces_whole c [] h = refl
pieces_whole c (x ∷ a) h = ground (arith, pieces_whole c a h.1)

pub pieces-join :
    (c : ℕ) (ps : List Bytes)
    → ps ≢ []
    → All (Lacks c) ps
    → pieces c (join_string_vector ps (c ∷ [])) ≡ ps
pieces-join c ps h k = cc (split-pieces (join_string_vector ps (c ∷ [])) c, split-join ps c h k)
