-- ===== src/Journal.antt =====
-- scripts/agent/journal.py: the append-only stream, its writer and its replay. A file is its complete
-- lines, the bytes after the last newline and what the system says of its version (device, inode and
-- times). Nothing touches the file within an operation, so that an operation that finds it changed finds it
-- so at its start; JournalCorruption is `none`.
pub mod Reader
pub mod Parsed
pub mod Operations
pub mod Linked
pub mod Refresh
pub mod Kept
pub mod Incremental
pub mod Replayed
mod Tests
use fail_closed_agent.Base.{
  ℕ, ◌+◌, Bool, true, false, not, ◌&&◌, ◌||◌, Option, none, some, List, [], ◌∷◌, ◌++◌, length,
  is_empty, ◌==◌, if◌then◌else◌,
}

-- The bytes of a line, without its newline.
abbrev pub Line : Type 0
Line = List ℕ

-- A row without its hash: its number and all its other fields.
pub record Row : Type 0 where
  pub seq : ℕ
  pub fields : ℕ

abbrev pub StoredRow : Type 0
StoredRow = Row × ℕ

-- The JSON text of a row with its hash; the parse of a line into an object, whose hash may be missing, or
-- `none`; the SHA-256 of the canonical text of a row.
pub record Outside : Type 0 where
  pub dumps : StoredRow → Line
  pub loads : Line → Option (Row × Option ℕ)
  pub row_hash : Row → ℕ

pub record File : Type 0 where
  pub lines : List Line
  pub partial : Line
  pub version : ℕ

-- What `os.stat` says of a file.
pub record FileState : Type 0 where
  pub version : ℕ
  pub size : ℕ

abbrev pub bytes_of : List Line → ℕ
bytes_of [] = 0
bytes_of (l ∷ ls) = length l + 1 + bytes_of ls

unfoldable pub file_state : File → FileState
file_state f = record { version = f.version; size = bytes_of f.lines + length f.partial }

unfoldable pub path_file_state : Option File → Option FileState
path_file_state none = none
path_file_state (some f) = some (file_state f)

unfoldable pub same : FileState → FileState → Bool
same a b = a.version == b.version && a.size == b.size

abbrev pub same_optional : Option FileState → Option FileState → Bool
same_optional none none = true
same_optional (some a) (some b) = same a b
same_optional _ _ = false

-- The state that all writers and readers of a path share.
pub record StreamState : Type 0 where
  pub seq : ℕ
  pub initialized : Bool
  pub file_state : Option FileState
  pub lineage : ℕ
  pub generation : ℕ

abbrev pub new_stream : StreamState
new_stream = record { seq = 0; initialized = false; file_state = none; lineage = 0; generation = 0 }

-- a row that was not altered
abbrev pub with_hash : Row → Option ℕ → (Row → ℕ) → Option StoredRow
with_hash row none row_hash = none
with_hash row (some stored) row_hash = if row_hash row == stored then some (row, stored) else none

unfoldable pub checked : Option (Row × Option ℕ) → (Row → ℕ) → Option StoredRow
checked none row_hash = none
checked (some (row, h)) row_hash = with_hash row h row_hash

abbrev pub then_rows : Option StoredRow → Option (List StoredRow) → Option (List StoredRow)
then_rows (some row) (some rows) = some (row ∷ rows)
then_rows _ _ = none

abbrev pub last_seq : List StoredRow → ℕ
last_seq [] = 0
last_seq ((row, h) ∷ []) = row.seq
last_seq (r ∷ rest) = last_seq rest

-- the rows with the last line of a file that does not end in a newline
abbrev pub with_tail : List StoredRow → Option StoredRow → List StoredRow
with_tail rows none = rows
with_tail rows (some row) = rows ++ row ∷ []

module _ (o : Outside) where
  unfoldable pub verify : Line → Option StoredRow
  verify line = checked (o.loads line) o.row_hash

  unfoldable pub parse_lines : List Line → Option (List StoredRow)
  parse_lines [] = some []
  parse_lines (l ∷ ls) = then_rows (verify l) (parse_lines ls)

  -- a tail without its newline is dropped unless it verifies
  unfoldable pub replay_tail : Line → Option (List StoredRow) → Option (List StoredRow)
  replay_tail partial none = none
  replay_tail partial (some rows) =
      if is_empty partial then some rows else some (with_tail rows (verify partial))

  unfoldable pub replay : Option File → Option (List StoredRow)
  replay none = some []
  replay (some f) = replay_tail f.partial (parse_lines f.lines)

  -- A file of which the tail was cut off has a new version.
  unfoldable pub repaired : ℕ → Option File → Option File
  repaired version none = none
  repaired version (some f) =
      if is_empty f.partial then some f else some (record f { partial = []; version = version })

  unfoldable pub rebased : List StoredRow → Option FileState → StreamState → StreamState
  rebased rows current s =
      if not s.initialized
      then record {
        seq = last_seq rows;
        initialized = true;
        file_state = current;
        lineage = 1;
        generation = 0;
      }
      else if same_optional s.file_state current
      then record s { seq = last_seq rows; file_state = current }
      else record s {
        seq = last_seq rows;
        file_state = current;
        lineage = s.lineage + 1;
        generation = 0;
      }

  unfoldable pub initial :
      Option (List StoredRow) → Option File → StreamState → Option StreamState × Option File
  initial none file s = (none, file)
  initial (some rows) file s = (some (rebased rows (path_file_state file) s), file)

  -- A writer is made, or `none` is JournalCorruption: a torn tail has then been cut off too. `version` is
  -- the one that a repair gives the file.
  unfoldable pub new_writer : ℕ → StreamState → Option File → Option StreamState × Option File
  new_writer version s file = initial (replay (repaired version file)) (repaired version file) s

  abbrev pub next_row : ℕ → StreamState → Row
  next_row fields s = record { seq = s.seq + 1; fields = fields }

  abbrev pub appended_row : ℕ → StreamState → StoredRow
  appended_row fields s = (next_row fields s, o.row_hash (next_row fields s))

  unfoldable pub with_line : ℕ → Line → File → File
  with_line version line f = record {
    lines = f.lines ++ (f.partial ++ line) ∷ [];
    partial = [];
    version = version;
  }

  abbrev pub empty_file : File
  empty_file = record { lines = []; partial = []; version = 0 }

  unfoldable pub written : File → StreamState → StreamState
  written f s = record s {
    seq = s.seq + 1;
    file_state = some (file_state f);
    generation = s.generation + 1;
  }

  -- the file is the one that the stream expects
  unfoldable pub append_to : ℕ → Line → StreamState → File → StreamState × File
  append_to version line s f = (written (with_line version line f) s, with_line version line f)

  unfoldable pub append : ℕ → ℕ → StreamState → Option File → Option (StreamState × File)
  append version fields s none =
      if same_optional s.file_state none
      then some (append_to version (o.dumps (appended_row fields s)) s empty_file)
      else none
  append version fields s (some f) =
      if same_optional s.file_state (some (file_state f))
      then some (append_to version (o.dumps (appended_row fields s)) s f)
      else none
