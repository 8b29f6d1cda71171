-- ===== src/Notification/Manager/Lines.antt =====
-- Texts of lines, and the maps that are read from them line by line.
use twitter_clone.Prelude.{
  ◌≤◌, ◌≡◌, refl, sym, ap, ◌∙◌, false, List, [], ◌∷◌, ◌++◌, map, Option, none, some, arith, length,
  is_empty, All, Bytes, Lacks, codes, append-nil, append_assoc,
}
use twitter_clone.Prelude.Map.{Map, find}
use twitter_clone.Text.{starts_with}
use twitter_clone.Text.Rows.{lines_text}
use twitter_clone.Prelude.Distinct.{DistinctKeys, NewTo, NewTo-concat, emplace-new, map_values}
use twitter_clone.Text.Find.{Clear}
use twitter_clone.Streams.{◌>>=◌}
use twitter_clone.Notification.Manager.Texts.{read_entries, read_line}

-- Nothing but the two newlines around the mark reads as the mark.
abbrev pub mark : Bytes
mark = codes "\n&\n"

-- A line of two bytes or more.
pub record IsRow (l : Bytes) : Type 0 where
  pub one_line : Lacks b'\n' l
  pub two_bytes : 2 ≤ length l

Clear-row : (l t rest : Bytes) → Lacks b'\n' l → Clear mark t rest → Clear mark (l ++ t) rest
unfolding starts_with
Clear-row [] t rest h k = k
Clear-row (c ∷ l) t rest h k = (ground arith, Clear-row l t rest h.1 k)

row-no_mark :
    (l s : Bytes) → Lacks b'\n' l → 2 ≤ length l → starts_with (codes "&\n") (l ++ s) ≡ false
unfolding starts_with
row-no_mark [] s h k = absurd (omega arith)
row-no_mark (c ∷ []) s h k = absurd (omega arith)
row-no_mark (c ∷ d ∷ l) s h k = ground (arith, h.1.0)

newline-no_mark :
    (ls : List Bytes) (rest : Bytes)
    → All IsRow ls
    → starts_with mark (b'\n' ∷ (lines_text ls ++ (mark ++ rest))) ≡ false
unfolding starts_with
newline-no_mark [] rest h = refl
newline-no_mark (l ∷ ls) rest h =
    ap (starts_with (codes "&\n")) (append_assoc l (b'\n' ∷ lines_text ls) (mark ++ rest))
    ∙ row-no_mark l _ h.0.one_line h.0.two_bytes

pub Clear-lines_text :
    (ls : List Bytes) (rest : Bytes) → All IsRow ls → Clear mark (lines_text ls) rest
Clear-lines_text [] rest h = tt
Clear-lines_text (l ∷ ls) rest h =
    Clear-row l (b'\n' ∷ lines_text ls) rest h.0.one_line
      (newline-no_mark ls rest h.1, Clear-lines_text ls rest h.1)

module _ {ℓ} {V : Type ℓ} where
  -- The lines of a map with distinct keys are read behind what was there already.
  module _ (read : Bytes → Option (Bytes × V)) (line : Bytes × V → Bytes) (g : V → V) where
    read_line-line :
        (key : Bytes) (v : V) (acc : Map V)
        → read (line (key, v)) ≡ some (key, g v)
        → is_empty (line (key, v)) ≡ false
        → find key acc ≡ none
        → read_line read (line (key, v)) acc ≡ some (acc ++ (key, g v) ∷ [])
    read_line-line key v acc h k n = rw (k, h, emplace-new key (g v) acc n) refl

    pub read_entries-lines :
        (m acc : Map V)
        → All (λ e. read (line e) ≡ some (e.0, g e.1)) m
        → All (λ e. is_empty (line e) ≡ false) m
        → DistinctKeys m
        → NewTo acc m
        → read_entries read (map line m ++ [] ∷ []) acc ≡ some (acc ++ map_values g m)
    unfolding read_entries
    read_entries-lines [] acc h k d n = ap some (sym (append-nil acc))
    read_entries-lines ((key, v) ∷ m) acc h k d n =
        ap (λ o. o >>= read_entries read (map line m ++ [] ∷ []))
          (read_line-line key v acc h.0 k.0 n.0)
        ∙ read_entries-lines m (acc ++ (key, g v) ∷ []) h.1 k.1 d.1
            (NewTo-concat key (g v) acc m n.1 d.0)
        ∙ ap some (append_assoc acc ((key, g v) ∷ []) (map_values g m))
