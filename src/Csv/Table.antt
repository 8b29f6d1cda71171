-- ===== src/Csv/Table.antt =====
-- Tables: the rows that the format can express, and their text.
use mathlib.Core.List.{cons-ne-nil}
use twitter_clone.Prelude.{
  ℕ, ◌≡◌, ◌≢◌, refl, sym, ap, ◌∙◌, List, [], ◌∷◌, ◌++◌, map, arith, if◌then◌else◌, is_empty, All,
  All-append, Bytes, Lacks, append_assoc, append-nil,
}
use twitter_clone.Text.{join_string_vector}
use twitter_clone.Text.Split.{glue, join_loop-glue}
use twitter_clone.Text.Pieces.{pieces, cons_head, pieces-ne-nil, pieces-join}
use twitter_clone.Csv.{
  lines_from, lines, columns_from, columns, format_line, format_rest, write_rows, write_rest,
}

-- A row that the format can express: its last column is not empty, and no column contains the
-- delimiter or a newline.
abbrev pub EndsFull : List Bytes → Type 0
EndsFull [] = ⊥
EndsFull (c ∷ []) = c ≢ []
EndsFull (c ∷ e ∷ cs) = EndsFull (e ∷ cs)

abbrev pub IsColumn : ℕ → Bytes → Type 0
IsColumn d c = Lacks d c × Lacks b'\n' c

pub record IsRow (d : ℕ) (row : List Bytes) : Type 0 where
  pub ends_full : EndsFull row
  pub plain : All (IsColumn d) row

abbrev prefix_head : Bytes → List Bytes → List Bytes
prefix_head cur [] = cur ∷ []
prefix_head cur (p ∷ ps) = (cur ++ p) ∷ ps

prefix_head-nil : (ps : List Bytes) → ps ≢ [] → prefix_head [] ps ≡ ps
prefix_head-nil [] h = absurd (h refl)
prefix_head-nil (p ∷ ps) h = refl

prefix_head-cons :
    (cur : Bytes) (c : ℕ) (ps : List Bytes)
    → ps ≢ []
    → prefix_head (cur ++ c ∷ []) ps ≡ prefix_head cur (cons_head c ps)
prefix_head-cons cur c [] h = absurd (h refl)
prefix_head-cons cur c (p ∷ ps) h = ap (λ t. t ∷ ps) (append_assoc cur (c ∷ []) p)

lines_from-pieces : (cur s : Bytes) → lines_from cur s ≡ prefix_head cur (pieces b'\n' s)
unfolding lines_from pieces
lines_from-pieces cur [] = ap (λ t. t ∷ []) (sym (append-nil cur))
lines_from-pieces cur (c ∷ s) = ground (
  arith,
  lines_from-pieces [] s,
  lines_from-pieces (cur ++ c ∷ []) s,
  prefix_head-nil (pieces b'\n' s) (pieces-ne-nil b'\n' s),
  prefix_head-cons cur c (pieces b'\n' s) (pieces-ne-nil b'\n' s),
  append-nil cur,
)

pub lines-pieces : (s : Bytes) → lines s ≡ pieces b'\n' s
unfolding lines
lines-pieces s = lines_from-pieces [] s ∙ prefix_head-nil (pieces b'\n' s) (pieces-ne-nil b'\n' s)

-- An empty last piece is no column.
abbrev trim : List Bytes → List Bytes
trim [] = []
trim (c ∷ []) = if is_empty c then [] else c ∷ []
trim (c ∷ e ∷ cs) = c ∷ trim (e ∷ cs)

trim-cons : (c : Bytes) (ps : List Bytes) → ps ≢ [] → trim (c ∷ ps) ≡ c ∷ trim ps
trim-cons c [] h = absurd (h refl)
trim-cons c (p ∷ ps) h = refl

columns_from-pieces :
    (d : ℕ) (cur s : Bytes) → columns_from d cur s ≡ trim (prefix_head cur (pieces d s))
unfolding columns_from pieces
columns_from-pieces d cur [] = rw append-nil
columns_from-pieces d cur (c ∷ s) = ground (
  arith,
  columns_from-pieces d [] s,
  columns_from-pieces d (cur ++ c ∷ []) s,
  prefix_head-nil (pieces d s) (pieces-ne-nil d s),
  prefix_head-cons cur c (pieces d s) (pieces-ne-nil d s),
  append-nil cur,
  trim-cons cur (pieces d s) (pieces-ne-nil d s),
)

trim-EndsFull : (row : List Bytes) → EndsFull row → trim row ≡ row
trim-EndsFull [] h = absurd h
trim-EndsFull ([] ∷ []) h = absurd (h refl)
trim-EndsFull ((x ∷ c) ∷ []) h = refl
trim-EndsFull (c ∷ e ∷ cs) h = ap (λ t. c ∷ t) (trim-EndsFull (e ∷ cs) h)

format_rest-glue :
    (d : ℕ) (cs : List Bytes) (row : Bytes) → format_rest d cs row ≡ row ++ glue (d ∷ []) cs
unfolding format_rest glue
format_rest-glue d [] row = sym (append-nil row)
format_rest-glue d (c ∷ cs) row = simp (format_rest-glue d cs, append_assoc)

format_line-join : (d : ℕ) (row : List Bytes) → format_line d row ≡ join_string_vector row (d ∷ [])
unfolding format_line join_string_vector
format_line-join d [] = refl
format_line-join d (c ∷ cs) = format_rest-glue d cs c ∙ sym (join_loop-glue (d ∷ []) cs c)

column-Lacks : (d : ℕ) (row : List Bytes) → All (IsColumn d) row → All (Lacks d) row
column-Lacks d [] h = tt
column-Lacks d (c ∷ cs) h = (h.0.0, column-Lacks d cs h.1)

EndsFull-ne-nil : (row : List Bytes) → EndsFull row → row ≢ []
EndsFull-ne-nil [] h = absurd h
EndsFull-ne-nil (c ∷ cs) h = cons-ne-nil c cs

-- A row that is written is read back.
pub columns-format_line :
    (d : ℕ) (row : List Bytes) → IsRow d row → columns d (format_line d row) ≡ row
unfolding columns
columns-format_line d row v =
    ap (columns_from d []) (format_line-join d row)
    ∙ columns_from-pieces d [] (join_string_vector row (d ∷ []))
    ∙ ap trim (
        ap (prefix_head [])
          (pieces-join d row (EndsFull-ne-nil row v.ends_full) (column-Lacks d row v.plain)))
    ∙ ap trim (prefix_head-nil row (EndsFull-ne-nil row v.ends_full))
    ∙ trim-EndsFull row v.ends_full

write_rest-glue :
    (d : ℕ) (rows : List (List Bytes)) (out : Bytes)
    → write_rest d rows out ≡ out ++ glue (b'\n' ∷ []) (map (format_line d) rows)
unfolding write_rest glue
write_rest-glue d [] out = sym (append-nil out)
write_rest-glue d (row ∷ rows) out = simp (write_rest-glue d rows, append_assoc)

pub write_rows-join :
    (d : ℕ) (rows : List (List Bytes))
    → write_rows d rows ≡ join_string_vector (map (format_line d) rows) (b'\n' ∷ [])
unfolding write_rows join_string_vector
write_rows-join d [] = refl
write_rows-join d (row ∷ rows) =
    write_rest-glue d rows (format_line d row)
    ∙ sym (join_loop-glue (b'\n' ∷ []) (map (format_line d) rows) (format_line d row))

-- A written row has no newline, and is not empty.
pub format_line-Lacks :
    (d : ℕ) (row : List Bytes) → d ≢ b'\n' → All (IsColumn d) row → Lacks b'\n' (format_line d row)
unfolding format_line
format_line-Lacks d [] ne h = tt
format_line-Lacks d (c ∷ cs) ne h = rest cs c h.0.1 h.1
  where
    rest :
        (es : List Bytes) (out : Bytes)
        → Lacks b'\n' out
        → All (IsColumn d) es
        → Lacks b'\n' (format_rest d es out)
    rest [] out k v = k
    rest (e ∷ es) out k v =
        rest es (out ++ (d ∷ e)) (All-append (λ b. b ≢ b'\n') out (d ∷ e) k (ne, v.0.1)) v.1
