-- ===== src/Journal/Tests.antt =====
-- Witnesses of the theorems on the journal: a line is the number, the fields and the hash of a row.
use fail_closed_agent.Base.{
  ℕ, ◌≡◌, ◌+◌, refl, Option, some, none, List, [], ◌∷◌, ◌++◌, ◌==◌, if◌then◌else◌,
}
use fail_closed_agent.Journal.{
  Line, Row, StoredRow, Outside, File, FileState, StreamState, new_stream, new_writer, parse_lines,
  replay, append, append_to, with_line, written, file_state, last_seq, verify, checked, replay_tail,
  path_file_state, initial, repaired, same, rebased,
}
use fail_closed_agent.Journal.Reader.{
  read_new, refresh, refresh_file, reparsed, extended, committed, commit_authorization, serve,
  authorized_append, drop,
}
use fail_closed_agent.Journal.Operations.{Operation, appends, makes_writer, reads, start, step, run}
use fail_closed_agent.Journal.Linked.{IsRecorded}
use fail_closed_agent.Journal.Kept.{AllRecorded}
use fail_closed_agent.Journal.Incremental.{accumulated_with, complete_rows, run-read_new}
use fail_closed_agent.Journal.Replayed.{
  if_made, Entries, rows_from, and_then, write_all, write_all-replay,
}

abbrev text : StoredRow → Line
text (row, h) = row.seq ∷ row.fields ∷ h ∷ []

abbrev parsed : Line → Option (Row × Option ℕ)
parsed (seq ∷ fields ∷ h ∷ []) = some (record { seq = seq; fields = fields }, some h)
parsed _ = none

abbrev plain : Outside
plain = record { dumps = text; loads = parsed; row_hash = λ row. row.seq + row.fields }

reads_back : (r : StoredRow) → parsed (text r) ≡ some (r.0, some r.1)
reads_back r = refl

-- a file with one row and a second one that a crash cut short
abbrev torn : File
torn = record { lines = (1 ∷ 40 ∷ 41 ∷ []) ∷ []; partial = 2 ∷ 50 ∷ []; version = 7 }

abbrev kept : List StoredRow
kept = (record { seq = 1; fields = 40 }, 41) ∷ []

one_row : parse_lines plain torn.lines ≡ some kept
unfolding parse_lines verify checked
one_row = refl

abbrev two_more : Entries
two_more = (9, 60) ∷ (10, 61) ∷ []

write_all-replay_example :
    (s : StreamState) × (file : Option File) × (and_then
        (if_made (new_writer plain 8 new_stream (some torn)))
        (λ (s', f'). write_all plain two_more s' f')
      ≡ some (s, file))
    × (replay plain file ≡ some (kept ++ rows_from plain.row_hash (last_seq kept) two_more))
write_all-replay_example = write_all-replay plain reads_back torn kept 8 two_more one_row

abbrev operations : List Operation
operations = makes_writer 1 ∷ appends 2 40 ∷ reads ∷ appends 3 50 ∷ []

-- what the file holds in each of its versions
abbrev content : FileState → List Line
content v =
    if v.version == 2 then (1 ∷ 40 ∷ 41 ∷ []) ∷ [] else (1 ∷ 40 ∷ 41 ∷ []) ∷ (2 ∷ 50 ∷ 52 ∷ []) ∷ []

on_record : AllRecorded plain content operations start
unfolding AllRecorded step IsRecorded new_writer initial repaired rebased path_file_state replay
    replay_tail append append_to with_line written file_state same read_new refresh refresh_file
    authorized_append reparsed extended committed commit_authorization serve drop parse_lines verify
    checked
on_record = (tt, (refl, (refl, (refl, tt))))

run-read_new_example :
    let w = run plain operations start in
    accumulated_with plain w.accumulated (read_new plain w.stream w.file w.reader)
    ≡ complete_rows plain w.file
run-read_new_example = run-read_new plain content operations on_record
