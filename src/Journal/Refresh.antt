-- ===== src/Journal/Refresh.antt =====
-- scripts/agent/journal.py, IncrementalJournalReader._refresh_locked and read_new: the outcomes of a read.
use fail_closed_agent.Base.{
  ℕ, ◌+◌, ◌≡◌, ◌⊎◌, inl, inr, refl, sym, ap, subst, ◌∙◌, true, false, Option, none, some, List, [],
  ◌++◌, length, Bool-cases,
}
use fail_closed_agent.Journal.{
  Line, StoredRow, Outside, File, FileState, file_state, same_optional, StreamState, parse_lines,
}
use fail_closed_agent.Journal.Reader.{
  Reader, drop, authorized_append, commit_authorization, committed, rebuilt, extended, reparsed,
  refresh_file, serve,
}
use fail_closed_agent.Journal.Operations.{accumulate}
use fail_closed_agent.Journal.Parsed.{
  drop-append, append-nil, length-append, same_optional-eq, joined, parse_lines-append, and_true,
}
use fail_closed_agent.Journal.Linked.{KnowsAt, UpToDate, committed-UpToDate, appended_since}

module _ (o : Outside) (recorded : FileState → List Line) where
  unfoldable pub Refreshed : StreamState → File → Reader → Reader → Type 0
  Refreshed s f r r' =
      (parse_lines o f.lines ≡ some r'.rows)
      × UpToDate o recorded s r'
      × (r'.served_count ≡ r.served_count)
      × ((r'.rebuilt_since_serve ≡ true)
          ⊎ ((r'.rebuilt_since_serve ≡ r.rebuilt_since_serve)
              × ((more : List StoredRow) × (r'.rows ≡ r.rows ++ more))))

  -- the read fails where a line does, or else is up to date
  unfoldable pub Outcome : StreamState → File → Reader → Option Reader → Type 0
  Outcome s f r out =
      ((parse_lines o f.lines ≡ none) × (out ≡ none))
      ⊎ ((r' : Reader) × (out ≡ some r') × Refreshed s f r r')

  pub unchanged-Outcome :
      (s : StreamState) (f : File) (r : Reader)
      → recorded (file_state f) ≡ f.lines
      → r.version ≡ some (file_state f)
      → UpToDate o recorded s r
      → Outcome s f r (some (committed s (file_state f) r.rows r.line_index r))
  unfolding Outcome Refreshed UpToDate KnowsAt committed commit_authorization
  unchanged-Outcome s f r known e (old, linked) =
      let (parsed, index) = subst (λ v. KnowsAt o recorded v r.rows r.line_index) e old in
      let at = index ∙ ap length known in
      inr (
        committed s (file_state f) r.rows r.line_index r,
        refl,
        (
          sym (ap (parse_lines o) known) ∙ parsed,
          subst (λ i. UpToDate o recorded s (committed s (file_state f) r.rows i r)) (sym at)
              (committed-UpToDate o recorded s f r.rows r known
                (sym (ap (parse_lines o) known) ∙ parsed)),
          refl,
          inr (refl, ([], sym (append-nil r.rows))),
        ),
      )

  pub extended-Outcome :
      (s : StreamState) (f : File) (r : Reader) (count : ℕ) (p : Option (List StoredRow))
      → recorded (file_state f) ≡ f.lines
      → parse_lines o f.lines ≡ joined r.rows p
      → r.line_index + count ≡ length f.lines
      → Outcome s f r (extended s (file_state f) r count p)
  unfolding Outcome Refreshed extended committed commit_authorization
  extended-Outcome s f r count none known e at = inl (e, refl)
  extended-Outcome s f r count (some more) known e at = inr (
    committed s (file_state f) (r.rows ++ more) (r.line_index + count) r,
    refl,
    (
      e,
      subst (λ i. UpToDate o recorded s (committed s (file_state f) (r.rows ++ more) i r)) (sym at)
          (committed-UpToDate o recorded s f (r.rows ++ more) r known e),
      refl,
      inr (refl, (more, refl)),
    ),
  )

  pub appended-Outcome :
      (s : StreamState) (f : File) (r : Reader)
      → recorded (file_state f) ≡ f.lines
      → authorized_append s r (file_state f) ≡ true
      → UpToDate o recorded s r
      → Outcome s f r (
          extended s
            (file_state f)
            r
            (length (drop r.line_index f.lines))
            (parse_lines o (drop r.line_index f.lines)))
  unfolding UpToDate authorized_append
  appended-Outcome s f r known h (old, linked) =
      let (first, second) = and_true o _ _ h in
      let (longer, ready) = and_true o _ _ first in
      let (seen, now) = and_true o _ _ second in
      let (v, more, parsed, index, led) =
        appended_since o recorded r.version r.writer_lineage r.writer_generation r.rows r.line_index
          s (file_state f) longer seen (same_optional-eq s.file_state (file_state f) now) old
          linked in
      let lines : f.lines ≡ recorded v ++ more = sym known ∙ led in
      let rest : drop r.line_index f.lines ≡ more =
        ap (λ i. drop i f.lines) index
        ∙ (ap (drop (length (recorded v))) lines ∙ drop-append (recorded v) more) in
      subst (λ l. Outcome s f r (extended s (file_state f) r (length l) (parse_lines o l)))
        (sym rest)
        (extended-Outcome s f r (length more) (parse_lines o more) known
          (ap (parse_lines o) lines ∙ parse_lines-append o (recorded v) more r.rows parsed)
          (ap (λ i. i + length more) index
            ∙ (sym (length-append (recorded v) more) ∙ ap length (sym lines))))

  pub reparsed-Outcome :
      (s : StreamState) (f : File) (r : Reader) (p : Option (List StoredRow))
      → recorded (file_state f) ≡ f.lines
      → parse_lines o f.lines ≡ p
      → Outcome s f r (reparsed s (file_state f) r (length f.lines) p)
  unfolding Outcome Refreshed reparsed committed commit_authorization UpToDate
  reparsed-Outcome s f r none known e = inl (e, refl)
  reparsed-Outcome s f r (some rows) known e = inr (
    rebuilt (committed s (file_state f) rows (length f.lines) r),
    refl,
    (e, committed-UpToDate o recorded s f rows r known e, refl, inl refl),
  )

  pub refresh_file-Outcome :
      (s : StreamState) (f : File) (r : Reader)
      → recorded (file_state f) ≡ f.lines
      → UpToDate o recorded s r
      → Outcome s f r (refresh_file o s r f)
  unfolding refresh_file
  refresh_file-Outcome s f r known u =
      elim (Bool-cases (same_optional r.version (some (file_state f)))) [
        | inl e ↦
            rw e (unchanged-Outcome s f r known (same_optional-eq r.version (file_state f) e) u)
        | inr e ↦ elim (Bool-cases (authorized_append s r (file_state f))) [
          | inl h ↦ rw (e, h) (appended-Outcome s f r known h u)
          | inr h ↦ rw (e, h) (reparsed-Outcome s f r (parse_lines o f.lines) known refl)
        ]
      ]

  -- what the caller of read_new has is what the reader has served, or the next read replaces it
  unfoldable pub IsServed : List StoredRow → Reader → Type 0
  IsServed rows r =
      (r.rebuilt_since_serve ≡ true) ⊎ ((rows ≡ r.rows) × (r.served_count ≡ length r.rows))

  pub serve_delta :
      (s : StreamState) (f : File) (r r' : Reader) (rows : List StoredRow)
      → IsServed rows r
      → r'.rebuilt_since_serve ≡ false
      → r'.served_count ≡ r.served_count
      → (r'.rebuilt_since_serve ≡ true)
        ⊎ ((r'.rebuilt_since_serve ≡ r.rebuilt_since_serve)
            × ((more : List StoredRow) × (r'.rows ≡ r.rows ++ more)))
      → rows ++ drop r'.served_count r'.rows ≡ r'.rows
  unfolding IsServed
  serve_delta s f r r' rows h e count (inl again) = absurd (cc (again, e))
  serve_delta s f r r' rows (inl again) e count (inr (kept, _)) = absurd (cc (again, kept, e))
  serve_delta s f r r' rows (inr (all, served)) e count (inr (kept, (more, grown))) =
      rw (all, grown, count ∙ served, drop-append r.rows more) refl

  pub serve_completes :
      (s : StreamState) (f : File) (r r' : Reader) (rows : List StoredRow)
      → IsServed rows r
      → Refreshed s f r r'
      → accumulate rows (serve o r').0 ≡ r'.rows
  unfolding IsServed Refreshed serve
  serve_completes s f r r' rows h (parsed, u, count, grown) =
      elim (Bool-cases r'.rebuilt_since_serve) [
        | inl e ↦ rw e refl
        | inr e ↦ rw e (serve_delta s f r r' rows h e count grown)
      ]
