-- ===== src/Csv.antt =====
-- src/lib/csv: the reader and writer of the file Users.db. A file is its bytes; none is a file
-- that is not open. The state bits of the stream are followed where they change a result.
pub mod Table
pub mod Reading
pub mod Lengths
pub mod Writing
use twitter_clone.Prelude.{
  ℕ, zero, suc, ◌+◌, Bool, true, false, not, ◌&&◌, List, [], ◌∷◌, ◌++◌, map, Option, none, some,
  ltb, ◌==◌, if◌then◌else◌, length, drop, is_empty, get_elem?, Bytes, bytes_eq, codes,
}

-- The lines that `while (canRead()) getline(file, line)` reads: reading the last one sets eof.
unfoldable pub lines_from : Bytes → Bytes → List Bytes
lines_from cur [] = cur ∷ []
lines_from cur (c ∷ s) = elim (c == b'\n') [
  | true ↦ cur ∷ lines_from [] s
  | false ↦ lines_from (cur ++ c ∷ []) s
]

unfoldable pub lines : Bytes → List Bytes
lines content = lines_from [] content

-- `while (getline(rowStream, column, delimiter))`: at the end, no empty column is read.
unfoldable pub columns_from : ℕ → Bytes → Bytes → List Bytes
columns_from d cur [] = if is_empty cur then [] else cur ∷ []
columns_from d cur (c ∷ s) = elim (c == d) [
  | true ↦ cur ∷ columns_from d [] s
  | false ↦ columns_from d (cur ++ c ∷ []) s
]

unfoldable pub columns : ℕ → Bytes → List Bytes
columns d line = columns_from d [] line

unfoldable pub rows_of : ℕ → Bytes → List (List Bytes)
rows_of d content = map (columns d) (lines content)

-- CSVReader::readAll.
unfoldable pub read_all : ℕ → Option Bytes → List (List Bytes)
read_all d none = []
read_all d (some content) = rows_of d content

row_at : ℕ → ℕ → List Bytes → List Bytes
row_at d n [] = []
row_at d zero (l ∷ ls) = columns d l
row_at d (suc n) (l ∷ ls) = row_at d n ls

-- CSVReader::readLine, for a line number that is not negative.
unfoldable pub read_line : ℕ → ℕ → Option Bytes → List Bytes
unfolding row_at
read_line d n none = []
read_line d n (some content) = row_at d n (lines content)

-- `row.size() > columnNumber && row[columnNumber] == content`.
unfoldable pub has_at : ℕ → Bytes → List Bytes → Bool
has_at i content row = elim (get_elem? row i) [ none ↦ false | some c ↦ bytes_eq c content ]

-- The loop compares the text searched for with a column that stays empty, and so stops after one
-- line when it searches for the empty text.
search_rows : ℕ → Bytes → List (List Bytes) → List Bytes
search_rows i content [] = []
search_rows i content (row ∷ rows) =
    let later = search_rows i content rows in
    if has_at i content row then row else if is_empty content then [] else later

-- CSVReader::searchFor.
unfoldable pub search_for : ℕ → ℕ → Bytes → Option Bytes → List Bytes
unfolding search_rows
search_for d i content none = []
search_for d i content (some file) = search_rows i content (rows_of d file)

pub format_rest : ℕ → List Bytes → Bytes → Bytes
format_rest d [] row = row
format_rest d (c ∷ cs) row = format_rest d cs (row ++ (d ∷ c))

-- CSVWriter::formatLine. For a row without a column line[0] is out of range: `append` and
-- `append_to_line` do not come here with one.
unfoldable pub format_line : ℕ → List Bytes → Bytes
unfolding format_rest
format_line d [] = []
format_line d (c ∷ cs) = format_rest d cs c

-- CSVWriter::append, with whether it wrote.
unfoldable pub append : ℕ → List Bytes → Option Bytes → Option Bytes × Bool
append d row none = (none, false)
append d [] (some content) = (some content, false)
append d (c ∷ cs) (some content) =
    if is_empty content
    then (some (format_line d (c ∷ cs)), true)
    else (some (content ++ (b'\n' ∷ format_line d (c ∷ cs))), true)

unfoldable pub add_columns : ℕ → Bytes → List Bytes → List Bytes → List Bytes
add_columns i search new_columns row = if has_at i search row then row ++ new_columns else row

pub write_rest : ℕ → List (List Bytes) → Bytes → Bytes
write_rest d [] out = out
write_rest d (row ∷ rows) out = write_rest d rows (out ++ (b'\n' ∷ format_line d row))

unfoldable pub write_rows : ℕ → List (List Bytes) → Bytes
unfolding write_rest
write_rows d [] = []
write_rows d (row ∷ rows) = write_rest d rows (format_line d row)

-- Writing from position 0 leaves what stands behind the written bytes.
unfoldable pub overwrite : Bytes → Bytes → Bytes
overwrite new old = new ++ drop (length new) old

-- Whether rows[0] has a column.
abbrev starts_full : List (List Bytes) → Bool
starts_full [] = false
starts_full (row ∷ rows) = not (is_empty row)

-- Whether each row has a column.
unfoldable pub all_full : List (List Bytes) → Bool
all_full [] = true
all_full (row ∷ rows) = not (is_empty row) && all_full rows

-- CSVWriter::appendToLine, with what is then in the file and the result. Where the first row has a
-- column and another has none, as for an empty line at the end of the file, formatLine reads
-- line[0] out of range: what C++ leaves undefined is none.
unfoldable pub append_to_line : ℕ → ℕ → Bytes → List Bytes → Option Bytes → Option Bytes × Bool
append_to_line d i search new_columns none = (none, false)
append_to_line d i search new_columns (some content) =
    let rows = map (add_columns i search new_columns) (rows_of d content) in
    if starts_full rows
    then if all_full rows
      then (some (overwrite (write_rows d rows) content), true)
      else (none, false)
    else (some content, false)
