-- ===== src/Journal/Incremental.antt =====
-- scripts/agent/journal.py: the incremental reader against the replay.
use fail_closed_agent.Base.{◌≡◌, inl, inr, refl, ap, subst, Bool, Option, none, some, List, []}
use fail_closed_agent.Journal.{Line, StoredRow, Outside, File, FileState, replay, replay_tail}
use fail_closed_agent.Journal.Reader.{Reader, refresh, serve, served_from, read_new}
use fail_closed_agent.Journal.Operations.{Operation, World, accumulate, start, run}
use fail_closed_agent.Journal.Linked.{KnowsAt, LinkedAt, IsRecorded, UpToDate}
use fail_closed_agent.Journal.Refresh.{
  Refreshed, Outcome, refresh_file-Outcome, IsServed, serve_completes,
}
use fail_closed_agent.Journal.Kept.{Good, run-Good, AllRecorded}

module _ (o : Outside) where
  abbrev pub complete_rows : Option File → Option (List StoredRow)
  complete_rows none = some []
  complete_rows (some f) = replay o (some (record f { partial = [] }))

  abbrev pub accumulated_with :
      List StoredRow → Option ((Bool × List StoredRow) × Reader) → Option (List StoredRow)
  accumulated_with rows none = none
  accumulated_with rows (some (served, r)) = some (accumulate rows served)

  module _ (recorded : FileState → List Line) where
    read_file_complete :
        (w : World) (f : File) (out : Option Reader)
        → Good o recorded w
        → Outcome o recorded w.stream f w.reader out
        → accumulated_with w.accumulated (served_from o out) ≡ complete_rows (some f)
    unfolding Outcome replay replay_tail Good Refreshed
    read_file_complete w f out good (inl (bad, e)) = rw (e, bad) refl
    read_file_complete w f out good (inr (r', e, done)) =
        rw (e, done.0)
          (ap some (serve_completes o recorded w.stream f w.reader r' w.accumulated good.2 done))

    read_new_complete :
        (w : World) (file : Option File)
        → w.file ≡ file
        → Good o recorded w
        → accumulated_with w.accumulated (read_new o w.stream file w.reader) ≡ complete_rows file
    unfolding read_new refresh serve Good IsRecorded
    read_new_complete w none e good = refl
    read_new_complete w (some f) e good = read_file_complete w f _ good (
        refresh_file-Outcome o recorded w.stream f w.reader (subst (IsRecorded o recorded) e good.0)
          good.1)

    -- Through any appends, new writers, changes of the file from outside and reads, where what the system
    -- says of a file determines its lines, the next read_new makes of what its caller has put together exactly the
    -- replay of the complete lines of the file, and it fails exactly where that replay does.
    pub run-read_new :
        (qs : List Operation)
        → AllRecorded o recorded qs start
        → let w = run o qs start in
          accumulated_with w.accumulated (read_new o w.stream w.file w.reader)
          ≡ complete_rows w.file
    unfolding Good UpToDate KnowsAt LinkedAt IsServed IsRecorded
    run-read_new qs k =
        let w = run o qs start in
        read_new_complete w w.file refl (run-Good o recorded qs start (tt, (tt, tt), inl refl) k)
