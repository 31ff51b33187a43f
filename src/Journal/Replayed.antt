-- ===== src/Journal/Replayed.antt =====
-- scripts/agent/journal.py, JournalWriter: what a writer appends is what the replay returns, after the
-- repair of a tail that a crash cut short too.
use fail_closed_agent.Base.{
  ℕ, ◌+◌, ◌≡◌, refl, sym, ap, ◌∙◌, true, Option, none, some, List, [], ◌∷◌, ◌++◌, is_empty, nil_of,
  arith, Bool-cases, inl, inr,
}
use fail_closed_agent.Journal.{
  Row, StoredRow, Outside, File, FileState, file_state, path_file_state, same, StreamState,
  new_stream, checked, verify, parse_lines, replay, replay_tail, last_seq, repaired, initial,
  rebased, new_writer, appended_row, with_line, empty_file, written, append_to, append,
}
use fail_closed_agent.Journal.Parsed.{parse_lines-append, append-nil, append_assoc}

-- The versions that the appends give the file, and the fields of the rows.
abbrev pub Entries : Type 0
Entries = List (ℕ × ℕ)

abbrev pub rows_from : (Row → ℕ) → ℕ → Entries → List StoredRow
rows_from row_hash n [] = []
rows_from row_hash n ((version, fields) ∷ rest) =
    (record { seq = n + 1; fields = fields }, row_hash record { seq = n + 1; fields = fields })
    ∷ rows_from row_hash (n + 1) rest

abbrev pub and_then {ℓ ℓ'} : {A : Type ℓ} {B : Type ℓ'} → Option A → (A → Option B) → Option B
and_then none f = none
and_then (some a) f = f a

-- a writer and its file, where one was made
abbrev pub if_made : Option StreamState × Option File → Option (StreamState × Option File)
if_made (none, file) = none
if_made (some s, file) = some (s, file)

module _ (o : Outside) where
  unfoldable pub write_all :
      Entries → StreamState → Option File → Option (StreamState × Option File)
  write_all [] s file = some (s, file)
  write_all ((version, fields) ∷ rest) s file =
      and_then (append o version fields s file) λ (s', f'). write_all rest s' (some f')

  -- a file that ends in a newline, which the stream expects, with the rows that it holds
  Holds : StreamState → Option File → List StoredRow → Type 0
  Holds s none rows = (s.file_state ≡ none) × (rows ≡ [])
  Holds s (some f) rows =
      (s.file_state ≡ some (file_state f)) × (f.partial ≡ []) × (parse_lines o f.lines ≡ some rows)

  same_refl : (a : FileState) → same a a ≡ true
  unfolding same
  same_refl a = ground arith

  Holds-replay :
      (s : StreamState) (file : Option File) (rows : List StoredRow)
      → Holds s file rows
      → replay o file ≡ some rows
  unfolding Holds replay replay_tail
  Holds-replay s none rows (_, e) = ap some (sym e)
  Holds-replay s (some f) rows (_, p, e) = rw (p, e) refl

  module _ (reads_back : (r : StoredRow) → o.loads (o.dumps r) ≡ some (r.0, some r.1)) where
    verify-appended :
        (fields : ℕ) (s : StreamState)
        → verify o (o.dumps (appended_row o fields s)) ≡ some (appended_row o fields s)
    unfolding verify checked
    verify-appended fields s = rw (reads_back (appended_row o fields s)) (ground arith)

    one-parsed :
        (fields : ℕ) (s : StreamState)
        → parse_lines o (o.dumps (appended_row o fields s) ∷ [])
          ≡ some (appended_row o fields s ∷ [])
    unfolding parse_lines
    one-parsed fields s = rw (verify-appended fields s) refl

    append-Holds :
        (version fields : ℕ) (s : StreamState) (file : Option File) (rows : List StoredRow)
        → Holds s file rows
        → (s' : StreamState) × (f' : File) × (append o version fields s file ≡ some (s', f'))
          × (s'.seq ≡ s.seq + 1)
          × Holds s' (some f') (rows ++ appended_row o fields s ∷ [])
    unfolding Holds append append_to written with_line
    append-Holds version fields s none rows (e, r) =
        let file = with_line o version (o.dumps (appended_row o fields s)) (empty_file o) in
        rw (e, r) (written o file s, file, refl, refl, (refl, refl, one-parsed fields s))
    append-Holds version fields s (some f) rows (e, p, r) =
        let line = o.dumps (appended_row o fields s) in
        let file = with_line o version line f in
        rw (e, same_refl (file_state f))
          (
            written o file s,
            file,
            refl,
            refl,
            (
              refl,
              refl,
              rw (p, parse_lines-append o f.lines (line ∷ []) rows r, one-parsed fields s) refl,
            ),
          )

    -- what a sequence of appends leaves
    Wrote : Entries → StreamState → Option File → List StoredRow → Type 0
    Wrote es s file rows =
        (s' : StreamState) × (file' : Option File) × (write_all es s file ≡ some (s', file'))
        × (replay o file' ≡ some (rows ++ rows_from o.row_hash s.seq es))

    write_all-Wrote :
        (es : Entries) (s : StreamState) (file : Option File) (rows : List StoredRow)
        → Holds s file rows
        → Wrote es s file rows
    unfolding Wrote write_all
    write_all-Wrote [] s file rows h =
        (s, file, refl, Holds-replay s file rows h ∙ ap some (sym (append-nil rows)))
    write_all-Wrote ((version, fields) ∷ rest) s file rows h =
        let (s', f', appended, next, held) = append-Holds version fields s file rows h in
        let (s'', file', wrote, replayed) =
          write_all-Wrote rest s' (some f') (rows ++ appended_row o fields s ∷ []) held in
        (
          s'',
          file',
          rw appended wrote,
          replayed
              ∙ (ap
                    (λ n.
                      some ((rows ++ appended_row o fields s ∷ []) ++ rows_from o.row_hash n rest))
                    next
                  ∙ ap some (
                      append_assoc rows (appended_row o fields s ∷ [])
                        (rows_from o.row_hash (s.seq + 1) rest))),
        )

    repaired-lines :
        (version : ℕ) (f : File)
        → (g : File) × (repaired o version (some f) ≡ some g)
          × (g.partial ≡ [])
          × (g.lines ≡ f.lines)
    unfolding repaired
    repaired-lines version f = elim (Bool-cases (is_empty f.partial)) [
      | inl e ↦ rw e (f, refl, nil_of f.partial e, refl)
      | inr e ↦ rw e (record f { partial = []; version = version }, refl, refl, refl)
    ]

    made : List StoredRow → File → StreamState
    made rows g = rebased o rows (some (file_state g)) new_stream

    new_writer-made :
        (version : ℕ) (file : Option File) (g : File) (rows : List StoredRow)
        → repaired o version file ≡ some g
        → g.partial ≡ []
        → parse_lines o g.lines ≡ some rows
        → new_writer o version new_stream file ≡ (some (made rows g), some g)
    unfolding new_writer initial replay replay_tail made path_file_state
    new_writer-made version file g rows e p h = rw (e, p, h) refl

    -- A writer made over any file whose complete lines verify, even one that a crash cut short, succeeds, and
    -- so does any sequence of appends after it; the replay then returns the rows of those lines and, after
    -- them, the appended rows, numbered on from the last, where JSON texts of rows read back.
    pub write_all-replay :
        (f : File) (rows : List StoredRow) (version : ℕ) (es : Entries)
        → parse_lines o f.lines ≡ some rows
        → (s : StreamState) × (file : Option File) × (and_then
              (if_made (new_writer o version new_stream (some f)))
              (λ (s', f'). write_all es s' f')
            ≡ some (s, file))
          × (replay o file ≡ some (rows ++ rows_from o.row_hash (last_seq rows) es))
    unfolding made rebased Holds Wrote
    write_all-replay f rows version es h =
        let (g, cut, p, lines) = repaired-lines version f in
        let parsed = ap (parse_lines o) lines ∙ h in
        let (s', file', wrote, replayed) =
          write_all-Wrote es (made rows g) (some g) rows (refl, p, parsed) in
        (s', file', rw (new_writer-made version (some f) g rows cut p parsed) wrote, replayed)
