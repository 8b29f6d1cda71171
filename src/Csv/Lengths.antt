-- ===== src/Csv/Lengths.antt =====
-- How long the text of a table is.
use twitter_clone.Prelude.{
  ℕ, ◌≤◌, ◌≡◌, refl, ap, List, [], ◌∷◌, ◌++◌, map, arith, Bytes, length, length-append,
}
use twitter_clone.Csv.{format_line, format_rest, write_rows, write_rest, add_columns}

pub length-write_rest-le :
    (d : ℕ) (rows : List (List Bytes)) (out : Bytes) → length out ≤ length (write_rest d rows out)
unfolding write_rest
length-write_rest-le d [] out = omega arith
length-write_rest-le d (r ∷ rows) out = omega (
  arith,
  length-write_rest-le d rows (out ++ (b'\n' ∷ format_line d r)),
  length-append out (b'\n' ∷ format_line d r),
)

pub length-format_rest-le :
    (d : ℕ) (cs : List Bytes) (out : Bytes) → length out ≤ length (format_rest d cs out)
unfolding format_rest
length-format_rest-le d [] out = omega arith
length-format_rest-le d (c ∷ cs) out =
    omega (arith, length-format_rest-le d cs (out ++ (d ∷ c)), length-append out (d ∷ c))

format_rest-append :
    (d : ℕ) (cs es : List Bytes) (out : Bytes)
    → format_rest d (cs ++ es) out ≡ format_rest d es (format_rest d cs out)
unfolding format_rest
format_rest-append d [] es out = refl
format_rest-append d (c ∷ cs) es out = format_rest-append d cs es (out ++ (d ∷ c))

longer_row :
    (d : ℕ) (row es : List Bytes) → length (format_line d row) ≤ length (format_line d (row ++ es))
unfolding format_line
longer_row d [] es = omega arith
longer_row d (c ∷ cs) es = omega (
  arith,
  ap length (format_rest-append d cs es c),
  length-format_rest-le d es (format_rest d cs c),
)

module _ (d i : ℕ) (search : Bytes) (new_columns : List Bytes) where
  longer_line :
      (row : List Bytes)
      → length (format_line d row) ≤ length (format_line d (add_columns i search new_columns row))
  unfolding add_columns
  longer_line row = ground (arith, longer_row d row new_columns)

  longer_rest :
      (rows : List (List Bytes)) (out out' : Bytes)
      → length out ≤ length out'
      → length (write_rest d rows out)
        ≤ length (write_rest d (map (add_columns i search new_columns) rows) out')
  unfolding write_rest
  longer_rest [] out out' h = h
  longer_rest (row ∷ rows) out out' h =
      longer_rest rows (out ++ (b'\n' ∷ format_line d row))
        (out' ++ (b'\n' ∷ format_line d (add_columns i search new_columns row)))
        (omega (
          arith,
          longer_line row,
          length-append out (b'\n' ∷ format_line d row),
          length-append out' (b'\n' ∷ format_line d (add_columns i search new_columns row)),
        ))

  pub longer_table :
      (rows : List (List Bytes))
      → length (write_rows d rows)
        ≤ length (write_rows d (map (add_columns i search new_columns) rows))
  unfolding write_rows
  longer_table [] = omega arith
  longer_table (row ∷ rows) =
      longer_rest rows (format_line d row) (format_line d (add_columns i search new_columns row))
        (longer_line row)
