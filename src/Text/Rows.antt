-- ===== src/Text/Rows.antt =====
-- Texts of lines that each end in a newline, and their bytes.
use twitter_clone.Prelude.{
  ◌≡◌, ◌≢◌, refl, ap, ◌∙◌, List, [], ◌∷◌, ◌++◌, map, some, arith, All, All-append, Bytes, Lacks,
  codes,
}
use twitter_clone.Text.{split}
use twitter_clone.Text.Pieces.{pieces, pieces-append, split-pieces}

-- The lines of the text, each ended by a newline.
abbrev pub lines_text : List Bytes → Bytes
lines_text [] = []
lines_text (l ∷ ls) = l ++ b'\n' ∷ lines_text ls

pub split-lines_text :
    (ls : List Bytes)
    → All (Lacks b'\n') ls
    → split (lines_text ls) (codes "\n") ≡ some (ls ++ [] ∷ [])
split-lines_text ls h = split-pieces (lines_text ls) b'\n' ∙ ap some (go ls h)
  where
    go : (xs : List Bytes) → All (Lacks b'\n') xs → pieces b'\n' (lines_text xs) ≡ xs ++ [] ∷ []
    go [] k = unfold pieces in refl
    go (x ∷ xs) k = pieces-append b'\n' x (lines_text xs) k.0 ∙ ap (λ t. x ∷ t) (go xs k.1)

pub lines_text-Lacks : (ls : List Bytes) → All (Lacks 0) ls → Lacks 0 (lines_text ls)
lines_text-Lacks [] h = tt
lines_text-Lacks (l ∷ ls) h = All-append (λ c. c ≢ 0) l _ h.0 (omega arith, lines_text-Lacks ls h.1)

-- Every line of a map, from what is known of its entries.
pub All-lines :
    {A : Type 0} {P : A → Type 0} (Q : Bytes → Type 0) (line : A → Bytes)
    → ((a : A) → P a → Q (line a))
    → (xs : List A) → All P xs
    → All Q (map line xs)
All-lines Q line f [] h = tt
All-lines Q line f (x ∷ xs) h = (f x h.0, All-lines Q line f xs h.1)

module _ {A : Type 0} where
  pub All-map : {P Q : A → Type 0} → ((a : A) → P a → Q a) → (xs : List A) → All P xs → All Q xs
  All-map f [] h = tt
  All-map f (x ∷ xs) h = (f x h.0, All-map f xs h.1)
