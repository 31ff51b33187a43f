-- ===== src/Journal/Reader.antt =====
-- scripts/agent/journal.py, IncrementalJournalReader: it parses only what was appended where the state of
-- the stream shows that its writers did, and everything otherwise. Its offset counts lines, which is its
-- line index; the size that it observed is that of its version. The deep copies are the values here.
use fail_closed_agent.Base.{
  ℕ, ◌+◌, Bool, true, false, ◌&&◌, Option, none, some, List, [], ◌∷◌, ◌++◌, length, ◌==◌, ltb,
  if◌then◌else◌, suc, zero,
}
use fail_closed_agent.Journal.{
  StoredRow, Outside, File, FileState, file_state, same_optional, StreamState, parse_lines,
}

pub record Reader : Type 0 where
  pub rows : List StoredRow
  pub line_index : ℕ
  pub version : Option FileState
  pub writer_lineage : Option ℕ
  pub writer_generation : Option ℕ
  pub served_count : ℕ
  pub rebuilt_since_serve : Bool

abbrev pub new_reader : Reader
new_reader = record {
  rows = [];
  line_index = 0;
  version = none;
  writer_lineage = none;
  writer_generation = none;
  served_count = 0;
  rebuilt_since_serve = true;
}

unfoldable pub drop {ℓ} : {A : Type ℓ} → ℕ → List A → List A
drop zero xs = xs
drop (suc n) [] = []
drop (suc n) (x ∷ xs) = drop n xs

-- the generation that the reader saw, under the lineage of now
abbrev pub saw_before : Option ℕ → Option ℕ → ℕ → ℕ → Bool
saw_before (some l) (some g) lineage generation = lineage == l && ltb g generation
saw_before _ _ lineage generation = false

abbrev pub grew : Option FileState → FileState → Bool
grew none current = false
grew (some v) current = ltb v.size current.size

unfoldable pub authorized_append : StreamState → Reader → FileState → Bool
authorized_append s r current =
    (grew r.version current && s.initialized)
    && (saw_before r.writer_lineage r.writer_generation s.lineage s.generation
        && same_optional s.file_state (some current))

abbrev pub is_ours : StreamState → FileState → Bool
is_ours s current = s.initialized && same_optional s.file_state (some current)

unfoldable pub commit_authorization : StreamState → FileState → Reader → Reader
commit_authorization s current r = record r {
  writer_lineage = if is_ours s current then some s.lineage else none;
  writer_generation = if is_ours s current then some s.generation else none;
}

unfoldable pub committed : StreamState → FileState → List StoredRow → ℕ → Reader → Reader
committed s current rows line_index r =
    commit_authorization s current
      (record r { rows = rows; line_index = line_index; version = some current })

abbrev pub rebuilt : Reader → Reader
rebuilt r = record r { rebuilt_since_serve = true }

-- after the parse of what was appended, and of everything
unfoldable pub extended :
    StreamState → FileState → Reader → ℕ → Option (List StoredRow) → Option Reader
extended s current r count none = none
extended s current r count (some new_rows) =
    some (committed s current (r.rows ++ new_rows) (r.line_index + count) r)

unfoldable pub reparsed :
    StreamState → FileState → Reader → ℕ → Option (List StoredRow) → Option Reader
reparsed s current r count none = none
reparsed s current r count (some rows) = some (rebuilt (committed s current rows count r))

module _ (o : Outside) where
  unfoldable pub refresh_file : StreamState → Reader → File → Option Reader
  refresh_file s r f =
      if same_optional r.version (some (file_state f))
      then some (committed s (file_state f) r.rows r.line_index r)
      else if authorized_append s r (file_state f)
      then extended s (file_state f) r (length (drop r.line_index f.lines))
          (parse_lines o (drop r.line_index f.lines))
      else reparsed s (file_state f) r (length f.lines) (parse_lines o f.lines)

  -- a refused file leaves the reader as it was
  unfoldable pub refresh : StreamState → Option File → Reader → Option Reader
  refresh s none r = some new_reader
  refresh s (some f) r = refresh_file s r f

  -- whether the rows replace what was served, and the rows
  abbrev pub Served : Type 0
  Served = Bool × List StoredRow

  unfoldable pub serve : Reader → Served × Reader
  serve r = (
    if r.rebuilt_since_serve then (true, r.rows) else (false, drop r.served_count r.rows),
    record r { served_count = length r.rows; rebuilt_since_serve = false },
  )

  abbrev pub served_from : Option Reader → Option (Served × Reader)
  served_from none = none
  served_from (some r) = some (serve r)

  unfoldable pub read_new : StreamState → Option File → Reader → Option (Served × Reader)
  read_new s file r = served_from (refresh s file r)
