-- ===== src/Csv/Writing.antt =====
-- The writer changes the table that the file holds as intended.
use twitter_clone.Prelude.{
  ℕ, suc, ◌≤◌, ◌<◌, ◌≡◌, ◌≢◌, refl, sym, ap, ◌∙◌, true, false, List, [], ◌∷◌, ◌++◌, map, some,
  arith, is_empty, All, All-append, Bytes, length, length-append, drop, append-nil, Bool-cases, inl,
  inr,
}
use twitter_clone.Csv.{
  columns, rows_of, format_line, format_rest, write_rows, write_rest, append, append_to_line,
  add_columns, has_at, overwrite, all_full, starts_full,
}
use twitter_clone.Csv.Table.{IsRow, IsColumn, EndsFull}
use twitter_clone.Csv.Lengths.{length-write_rest-le, length-format_rest-le, longer_table}
use twitter_clone.Csv.Reading.{IsTable, lines-write_rows, map-columns}

write_rest-append :
    (d : ℕ) (rows : List (List Bytes)) (row : List Bytes) (out : Bytes)
    → write_rest d (rows ++ row ∷ []) out ≡ write_rest d rows out ++ (b'\n' ∷ format_line d row)
unfolding write_rest
write_rest-append d [] row out = refl
write_rest-append d (r ∷ rows) row out =
    write_rest-append d rows row (out ++ (b'\n' ∷ format_line d r))

full_line : (d : ℕ) (row : List Bytes) → EndsFull row → 0 < length (format_line d row)
unfolding format_line format_rest
full_line d [] h = absurd h
full_line d ([] ∷ []) h = absurd (h refl)
full_line d ((x ∷ c) ∷ []) h = omega arith
full_line d (c ∷ e ∷ cs) h =
    omega (arith, length-format_rest-le d cs (c ++ (d ∷ e)), length-append c (d ∷ e))

full_table : (d : ℕ) (rows : List (List Bytes)) → IsTable d rows → 0 < length (write_rows d rows)
unfolding write_rows
full_table d [] v = absurd (v.some_row refl)
full_table d (row ∷ rows) v =
    omega (
      arith,
      full_line d row v.rows_fit.0.ends_full,
      length-write_rest-le d rows (format_line d row),
    )

not_empty : (s : Bytes) → 0 < length s → is_empty s ≡ false
not_empty [] h = absurd (omega arith)
not_empty (c ∷ s) h = refl

-- Appending a row to the file of a table makes it the file of the table with that row at its end.
pub append-write_rows :
    (d : ℕ) (rows : List (List Bytes)) (row : List Bytes)
    → IsTable d rows
    → IsRow d row
    → append d row (some (write_rows d rows)) ≡ (some (write_rows d (rows ++ row ∷ [])), true)
append-write_rows d rows [] v w = absurd w.ends_full
append-write_rows d [] (c ∷ cs) v w = absurd (v.some_row refl)
append-write_rows d (r ∷ rows) (c ∷ cs) v w =
    unfold append in
    rw (not_empty (write_rows d (r ∷ rows)) (full_table d (r ∷ rows) v)) (
      unfold write_rows in
      ap (λ t. (some t, true)) (sym (write_rest-append d rows (c ∷ cs) (format_line d r))))

-- An empty file becomes the table of the one row.
pub append_first :
    (d : ℕ) (row : List Bytes)
    → IsRow d row
    → append d row (some []) ≡ (some (write_rows d (row ∷ [])), true)
unfolding append write_rows
append_first d [] w = absurd w.ends_full
append_first d (c ∷ cs) w = unfold write_rest in refl

append-EndsFull : (cs es : List Bytes) → EndsFull es → EndsFull (cs ++ es)
append-EndsFull [] es h = h
append-EndsFull (c ∷ []) [] h = absurd h
append-EndsFull (c ∷ []) (e ∷ es) h = h
append-EndsFull (c ∷ f ∷ cs) es h = append-EndsFull (f ∷ cs) es h

all_full_lem : (d : ℕ) (rs : List (List Bytes)) → All (IsRow d) rs → all_full rs ≡ true
unfolding all_full
all_full_lem d [] k = refl
all_full_lem d ([] ∷ rs) k = absurd k.0.ends_full
all_full_lem d ((c ∷ cs) ∷ rs) k = all_full_lem d rs k.1

starts_full_lem :
    (d : ℕ) (rs : List (List Bytes)) → rs ≢ [] → All (IsRow d) rs → starts_full rs ≡ true
starts_full_lem d [] h k = absurd (h refl)
starts_full_lem d ([] ∷ rs) h k = absurd k.0.ends_full
starts_full_lem d ((c ∷ cs) ∷ rs) h k = refl

drop_long : (xs : Bytes) (n : ℕ) → length xs ≤ n → drop n xs ≡ []
drop_long [] ℕ.zero h = refl
drop_long [] (suc n) h = refl
drop_long (x ∷ xs) ℕ.zero h = absurd (omega arith)
drop_long (x ∷ xs) (suc n) h = drop_long xs n (omega arith)

append_to_line_steps :
    (d i : ℕ) (search : Bytes) (new_columns : List Bytes) (content : Bytes)
    (rs ss : List (List Bytes))
    → rows_of d content ≡ rs
    → map (add_columns i search new_columns) rs ≡ ss
    → starts_full ss ≡ true
    → all_full ss ≡ true
    → length content ≤ length (write_rows d ss)
    → append_to_line d i search new_columns (some content) ≡ (some (write_rows d ss), true)
unfolding append_to_line overwrite
append_to_line_steps d i search new_columns content rs ss h₁ h₂ h₃ h₄ h₅ =
    rw (
      h₁,
      h₂,
      h₃,
      h₄,
      drop_long content (length (write_rows d ss)) h₅,
      append-nil (write_rows d ss),
    )

module _ (d i : ℕ) (search : Bytes) (new_columns : List Bytes) where
  add_columns-IsRow :
      IsRow d new_columns
      → (row : List Bytes) → IsRow d row
      → IsRow d (add_columns i search new_columns row)
  unfolding add_columns
  add_columns-IsRow w row v = elim (Bool-cases (has_at i search row)) [
    | inl e ↦ rw e (record {
      ends_full = append-EndsFull row new_columns w.ends_full;
      plain = All-append (IsColumn d) row new_columns v.plain w.plain;
    })
    | inr e ↦ rw e v
  ]

  add_rows-IsRow :
      IsRow d new_columns
      → (rows : List (List Bytes)) → All (IsRow d) rows
      → All (IsRow d) (map (add_columns i search new_columns) rows)
  add_rows-IsRow w [] h = tt
  add_rows-IsRow w (row ∷ rows) h = (add_columns-IsRow w row h.0, add_rows-IsRow w rows h.1)

  -- Adding columns keeps a table a table.
  add_columns-IsTable :
      (rows : List (List Bytes))
      → IsRow d new_columns
      → IsTable d rows
      → IsTable d (map (add_columns i search new_columns) rows)
  add_columns-IsTable [] w v = absurd (v.some_row refl)
  add_columns-IsTable (row ∷ rows) w v = record {
    delimiter = v.delimiter;
    some_row = λ e. cc;
    rows_fit = add_rows-IsRow w (row ∷ rows) v.rows_fit;
  }

  -- The file of a table becomes the file of the table in which each row with the text searched
  -- for in the column has the new columns at its end, and nothing of the old file is left behind.
  pub append_to_line-write_rows :
      (rows : List (List Bytes))
      → IsRow d new_columns
      → IsTable d rows
      → append_to_line d i search new_columns (some (write_rows d rows))
        ≡ (some (write_rows d (map (add_columns i search new_columns) rows)), true)
  append_to_line-write_rows rows w v =
      let ss = map (add_columns i search new_columns) rows in
      let t = add_columns-IsTable rows w v in
      append_to_line_steps d i search new_columns (write_rows d rows) rows ss
        (unfold rows_of in
          ap (map (columns d)) (lines-write_rows d rows v) ∙ map-columns d rows v.rows_fit)
        refl (starts_full_lem d ss t.some_row t.rows_fit) (all_full_lem d ss t.rows_fit)
        (longer_table d i search new_columns rows)
