-- ===== src/Journal/Kept.antt =====
-- scripts/agent/journal.py: what every operation keeps of the stream, the file and the reader.
use fail_closed_agent.Base.{
  ℕ, ◌≡◌, inl, inr, refl, subst, Option, none, some, List, [], ◌∷◌, Bool-cases,
}
use fail_closed_agent.Journal.{
  Line, StoredRow, Outside, File, FileState, file_state, path_file_state, same_optional,
  StreamState, new_writer, append, initial, repaired, append_to, with_line,
}
use fail_closed_agent.Journal.Reader.{Reader, refresh, serve, served_from, read_new}
use fail_closed_agent.Journal.Parsed.{same_optional-eq, same_optional-same}
use fail_closed_agent.Journal.Operations.{
  Operation, appends, makes_writer, outside, reads, World, after_append, after_writer, after_read,
  step, run,
}
use fail_closed_agent.Journal.Linked.{
  KnowsAt, LinkedAt, IsRecorded, UpToDate, linked_append, linked_create, linked_writer,
}
use fail_closed_agent.Journal.Refresh.{
  Refreshed, Outcome, refresh_file-Outcome, IsServed, serve_completes,
}

module _ (o : Outside) (recorded : FileState → List Line) where
  -- everything that is known of a world
  unfoldable pub Good : World → Type 0
  Good w =
      IsRecorded o recorded w.file
      × UpToDate o recorded w.stream w.reader
      × IsServed o recorded w.accumulated w.reader

  pub append_to-Good :
      (w : World) (s : StreamState) (f : File)
      → Good w
      → recorded (file_state f) ≡ f.lines
      → ((version : Option FileState) (l g : Option ℕ)
          → LinkedAt o recorded version l g w.stream
          → LinkedAt o recorded version l g s)
      → Good (record w { stream = s; file = some f })
  unfolding Good IsRecorded UpToDate
  append_to-Good w s f (k, (known, linked), served) k' keeps =
      (k', (known, keeps _ _ _ linked), served)

  pub append-Good :
      (w : World) (version fields : ℕ) (file : Option File)
      → w.file ≡ file
      → Good w
      → IsRecorded o recorded (after_append w (append o version fields w.stream file)).file
      → Good (after_append w (append o version fields w.stream file))
  unfolding append append_to Good IsRecorded with_line
  append-Good w version fields none e good =
      elim (Bool-cases (same_optional w.stream.file_state none)) [
        | inl h ↦ rw h (λ k. append_to-Good w _ _ good k λ v l g link.
            linked_create o recorded v l g w.stream _
              (same_optional-same w.stream.file_state none h) link)
        | inr h ↦ rw h (λ k. good)
      ]
  append-Good w version fields (some f) e good =
      elim (Bool-cases (same_optional w.stream.file_state (some (file_state f)))) [
        | inl h ↦ rw h (λ k. append_to-Good w _ _ good k λ v l g link.
            linked_append o recorded v l g w.stream f _ _
              (same_optional-eq w.stream.file_state (file_state f) h)
              (subst (IsRecorded o recorded) e good.0) k refl link)
        | inr h ↦ rw h (λ k. good)
      ]

  pub writer-Good :
      (w : World) (file : Option File) (rows : Option (List StoredRow))
      → Good w
      → IsRecorded o recorded (after_writer w (initial o rows file w.stream)).file
      → Good (after_writer w (initial o rows file w.stream))
  unfolding initial Good UpToDate
  writer-Good w file none (_, known, served) k = (k, known, served)
  writer-Good w file (some rows) (_, (known, linked), served) k = (
    k,
    (known, linked_writer o recorded _ _ _ w.stream rows (path_file_state file) linked),
    served,
  )

  pub served_Good :
      (w : World) (f : File) (r' : Reader)
      → Good w
      → Refreshed o recorded w.stream f w.reader r'
      → Good (after_read w (some (serve o r')))
  unfolding Good UpToDate Refreshed IsServed serve
  served_Good w f r' (k, u, served) done = (
    k,
    done.1,
    inr (serve_completes o recorded w.stream f w.reader r' w.accumulated served done, refl),
  )

  pub read_file-Good :
      (w : World) (f : File) (out : Option Reader)
      → Good w
      → Outcome o recorded w.stream f w.reader out
      → Good (after_read w (served_from o out))
  unfolding Outcome
  read_file-Good w f out good (inl (_, e)) = rw e good
  read_file-Good w f out good (inr (r', e, done)) = rw e (served_Good w f r' good done)

  pub read-Good :
      (w : World) (file : Option File)
      → w.file ≡ file
      → Good w
      → Good (after_read w (read_new o w.stream file w.reader))
  unfolding read_new refresh Good UpToDate KnowsAt LinkedAt IsServed serve IsRecorded
  read-Good w none e good = (good.0, (tt, tt), inr (refl, refl))
  read-Good w (some f) e good = read_file-Good w f _ good (
      refresh_file-Outcome o recorded w.stream f w.reader (subst (IsRecorded o recorded) e good.0)
        good.1)

  pub step-Good :
      (q : Operation) (w : World)
      → Good w
      → IsRecorded o recorded (step o q w).file
      → Good (step o q w)
  unfolding step Good IsRecorded initial new_writer
  step-Good (appends version fields) w good k = append-Good w version fields w.file refl good k
  step-Good (makes_writer version) w good k = writer-Good w (repaired o version w.file) _ good k
  step-Good (outside file) w good k = (k, good.1, good.2)
  step-Good reads w good k = read-Good w w.file refl good

  -- every version that the file goes through is on record
  unfoldable pub AllRecorded : List Operation → World → Type 0
  unfolding IsRecorded
  AllRecorded [] w = Unit
  AllRecorded (q ∷ rest) w = IsRecorded o recorded (step o q w).file × AllRecorded rest (step o q w)

  pub run-Good : (qs : List Operation) (w : World) → Good w → AllRecorded qs w → Good (run o qs w)
  unfolding run AllRecorded
  run-Good [] w good k = good
  run-Good (q ∷ rest) w good (k, later) = run-Good rest (step o q w) (step-Good q w good k) later
