-- ===== src/Journal/Operations.antt =====
-- scripts/agent/journal.py: sequences of appends, new writers, reads, and changes of the file from outside.
use fail_closed_agent.Base.{ℕ, Bool, true, false, Option, none, some, List, [], ◌∷◌, ◌++◌}
use fail_closed_agent.Journal.{
  StoredRow, Outside, File, StreamState, new_stream, new_writer, append,
}
use fail_closed_agent.Journal.Reader.{Reader, new_reader, read_new}

pub data Operation : Type 0 where
  appends : ℕ → ℕ → Operation
  makes_writer : ℕ → Operation
  outside : Option File → Operation
  reads : Operation

-- `accumulated` is what the caller of read_new has put together.
pub record World : Type 0 where
  pub stream : StreamState
  pub file : Option File
  pub reader : Reader
  pub accumulated : List StoredRow

abbrev pub accumulate : List StoredRow → Bool × List StoredRow → List StoredRow
accumulate rows (true, new_rows) = new_rows
accumulate rows (false, new_rows) = rows ++ new_rows

abbrev pub after_append : World → Option (StreamState × File) → World
after_append w none = w
after_append w (some (s, f)) = record w { stream = s; file = some f }

abbrev pub after_writer : World → Option StreamState × Option File → World
after_writer w (none, f) = record w { file = f }
after_writer w (some s, f) = record w { stream = s; file = f }

abbrev pub after_read : World → Option ((Bool × List StoredRow) × Reader) → World
after_read w none = w
after_read w (some (served, r)) = record w {
  reader = r;
  accumulated = accumulate w.accumulated served;
}

abbrev pub start : World
start = record { stream = new_stream; file = none; reader = new_reader; accumulated = [] }

module _ (o : Outside) where
  unfoldable pub step : Operation → World → World
  step (appends version fields) w = after_append w (append o version fields w.stream w.file)
  step (makes_writer version) w = after_writer w (new_writer o version w.stream w.file)
  step (outside file) w = record w { file = file }
  step reads w = after_read w (read_new o w.stream w.file w.reader)

  unfoldable pub run : List Operation → World → World
  run [] w = w
  run (q ∷ rest) w = run rest (step q w)
