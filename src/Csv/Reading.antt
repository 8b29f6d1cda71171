-- ===== src/Csv/Reading.antt =====
-- A table that is written is read back.
use twitter_clone.Prelude.{ℕ, ◌≡◌, ◌≢◌, refl, ap, ◌∙◌, List, [], ◌∷◌, map, some, All, Bytes, Lacks}
use twitter_clone.Text.Pieces.{pieces, pieces-join}
use twitter_clone.Csv.{lines, columns, rows_of, read_all, format_line, write_rows}
use twitter_clone.Csv.Table.{
  IsRow, lines-pieces, columns-format_line, write_rows-join, format_line-Lacks,
}

-- The delimiter is not a newline, there is a row, and the format can express each.
pub record IsTable (d : ℕ) (rows : List (List Bytes)) : Type 0 where
  pub delimiter : d ≢ b'\n'
  pub some_row : rows ≢ []
  pub rows_fit : All (IsRow d) rows

map-Lacks :
    (d : ℕ) (rows : List (List Bytes))
    → d ≢ b'\n'
    → All (IsRow d) rows
    → All (Lacks b'\n') (map (format_line d) rows)
map-Lacks d [] ne h = tt
map-Lacks d (row ∷ rows) ne h = (format_line-Lacks d row ne h.0.plain, map-Lacks d rows ne h.1)

map-ne-nil : (d : ℕ) (rows : List (List Bytes)) → rows ≢ [] → map (format_line d) rows ≢ []
map-ne-nil d [] h = absurd (h refl)
map-ne-nil d (row ∷ rows) h = λ e. cc

pub lines-write_rows :
    (d : ℕ) (rows : List (List Bytes))
    → IsTable d rows
    → lines (write_rows d rows) ≡ map (format_line d) rows
lines-write_rows d rows v =
    lines-pieces (write_rows d rows)
    ∙ ap (pieces b'\n') (write_rows-join d rows)
    ∙ pieces-join b'\n' (map (format_line d) rows) (map-ne-nil d rows v.some_row)
        (map-Lacks d rows v.delimiter v.rows_fit)

pub map-columns :
    (d : ℕ) (rows : List (List Bytes))
    → All (IsRow d) rows
    → map (columns d) (map (format_line d) rows) ≡ rows
map-columns d [] h = refl
map-columns d (row ∷ rows) h = λ i. columns-format_line d row h.0 i ∷ map-columns d rows h.1 i

-- Reading a table that was written gives its rows, each with its columns.
pub read_all-write_rows :
    (d : ℕ) (rows : List (List Bytes))
    → IsTable d rows
    → read_all d (some (write_rows d rows)) ≡ rows
unfolding read_all rows_of
read_all-write_rows d rows v =
    ap (map (columns d)) (lines-write_rows d rows v) ∙ map-columns d rows v.rows_fit
