-- ===== src/Journal/Linked.antt =====
-- scripts/agent/journal.py, IncrementalJournalReader: what its last verified version and the writer's
-- lineage and generation tell it.
use fail_closed_agent.Base.{
  ℕ, ◌+◌, ◌≤◌, ◌<◌, ◌≡◌, ◌⊎◌, inl, inr, refl, sym, ap, subst, ◌∙◌, true, ◌&&◌, Option, none, some,
  List, [], ◌∷◌, ◌++◌, length, arith, Bool-cases,
}
use fail_closed_agent.Journal.{
  Line, StoredRow, Outside, File, FileState, file_state, same_optional, StreamState, parse_lines,
  rebased, written,
}
use fail_closed_agent.Journal.Reader.{Reader, saw_before, grew, commit_authorization, committed}
use fail_closed_agent.Journal.Parsed.{
  append-nil, append_assoc, same_optional-eq, same_optional-same, and_true,
}

module _ (o : Outside) (recorded : FileState → List Line) where
  unfoldable pub KnowsAt : Option FileState → List StoredRow → ℕ → Type 0
  KnowsAt none rows line_index = Unit
  KnowsAt (some v) rows line_index =
      (parse_lines o (recorded v) ≡ some rows) × (line_index ≡ length (recorded v))

  unfoldable pub Extends : FileState → Option FileState → Type 0
  Extends v none = ⊥
  Extends v (some w) = (more : List Line) × (recorded w ≡ recorded v ++ more)

  -- a generation that was seen is under an older lineage, or appends led from it to now
  unfoldable pub LinkedAt : Option FileState → Option ℕ → Option ℕ → StreamState → Type 0
  LinkedAt (some v) (some l) (some g) s =
      (s.initialized ≡ true)
      × ((l < s.lineage) ⊎ ((l ≡ s.lineage) × (g ≤ s.generation) × Extends v s.file_state))
  LinkedAt _ _ _ s = Unit

  -- every version of the file is on record
  unfoldable pub IsRecorded : Option File → Type 0
  IsRecorded none = Unit
  IsRecorded (some f) = recorded (file_state f) ≡ f.lines

  unfoldable pub UpToDate : StreamState → Reader → Type 0
  UpToDate s r =
      KnowsAt r.version r.rows r.line_index
      × LinkedAt r.version r.writer_lineage r.writer_generation s

  pub committed-UpToDate :
      (s : StreamState) (f : File) (rows : List StoredRow) (r : Reader)
      → recorded (file_state f) ≡ f.lines
      → parse_lines o f.lines ≡ some rows
      → UpToDate s (committed s (file_state f) rows (length f.lines) r)
  unfolding committed commit_authorization UpToDate KnowsAt LinkedAt Extends
  committed-UpToDate s f rows r known parsed =
      elim (Bool-cases (s.initialized && same_optional s.file_state (some (file_state f)))) [
        | inl e ↦
            rw (e, known)
              (
                (parsed, refl),
                (
                  (and_true o s.initialized _ e).0,
                  inr (
                    refl,
                    ground arith,
                    subst (Extends (file_state f))
                        (sym (
                          same_optional-eq s.file_state (file_state f)
                            (and_true o s.initialized _ e).1))
                        ([], sym (append-nil (recorded (file_state f)))),
                  ),
                ),
              )
        | inr e ↦ rw (e, known) ((parsed, refl), tt)
      ]

  pub appended_since :
      (version : Option FileState) (lineage generation : Option ℕ) (rows : List StoredRow)
      (line_index : ℕ) (s : StreamState) (current : FileState)
      → grew version current ≡ true
      → saw_before lineage generation s.lineage s.generation ≡ true
      → s.file_state ≡ some current
      → KnowsAt version rows line_index
      → LinkedAt version lineage generation s
      → (v : FileState) × (more : List Line) × (parse_lines o (recorded v) ≡ some rows)
        × (line_index ≡ length (recorded v))
        × (recorded current ≡ recorded v ++ more)
  unfolding KnowsAt LinkedAt Extends
  appended_since none l g rows i s current h k e known linked = absurd (cc h)
  appended_since (some v) none g rows i s current h k e known linked = absurd (cc k)
  appended_since (some v) (some l) none rows i s current h k e known linked = absurd (cc k)
  appended_since (some v) (some l) (some g) rows i s current h k e known (ready, inl older) =
      absurd (ground arith)
  appended_since (some v) (some l) (some g) rows i s current h k e known
        (ready, inr (same_lineage, le, ext)) =
      let (more, led) = subst (Extends v) e ext in (v, more, known.0, known.1, led)

  pub linked_append :
      (version : Option FileState) (l g : Option ℕ) (s : StreamState) (f f' : File) (line : Line)
      → s.file_state ≡ some (file_state f)
      → recorded (file_state f) ≡ f.lines
      → recorded (file_state f') ≡ f'.lines
      → f'.lines ≡ f.lines ++ line ∷ []
      → LinkedAt version l g s
      → LinkedAt version l g (written o f' s)
  unfolding LinkedAt Extends written
  linked_append none l g s f f' line e k k' x h = tt
  linked_append (some v) none g s f f' line e k k' x h = tt
  linked_append (some v) (some l) none s f f' line e k k' x h = tt
  linked_append (some v) (some l) (some g) s f f' line e k k' x (ready, inl older) =
      (ready, inl older)
  linked_append (some v) (some l) (some g) s f f' line e k k' x
        (ready, inr (same_lineage, le, ext)) =
      let (more, led) = subst (Extends v) e ext in
      (
        ready,
        inr (
          same_lineage,
          ground arith,
          (
            more ++ line ∷ [],
            k'
                ∙ (x
                    ∙ (ap (λ ls. ls ++ line ∷ []) (sym k ∙ led)
                        ∙ append_assoc (recorded v) more (line ∷ []))),
          ),
        ),
      )

  pub linked_create :
      (version : Option FileState) (l g : Option ℕ) (s : StreamState) (f : File)
      → s.file_state ≡ none
      → LinkedAt version l g s
      → LinkedAt version l g (written o f s)
  unfolding LinkedAt Extends written
  linked_create none l g s f e h = tt
  linked_create (some v) none g s f e h = tt
  linked_create (some v) (some l) none s f e h = tt
  linked_create (some v) (some l) (some g) s f e (ready, inl older) = (ready, inl older)
  linked_create (some v) (some l) (some g) s f e (ready, inr (same_lineage, le, ext)) =
      absurd (subst (Extends v) e ext)

  pub not_later : (l m : ℕ) (A B : Type 0) → (l < m) ⊎ ((l ≡ m) × A × B) → l < m + 1
  not_later l m A B (inl h) = ground arith
  not_later l m A B (inr (h, _, _)) = ground arith

  pub linked_writer :
      (version : Option FileState) (l g : Option ℕ) (s : StreamState) (rows : List StoredRow)
      (current : Option FileState)
      → LinkedAt version l g s
      → LinkedAt version l g (rebased o rows current s)
  unfolding LinkedAt rebased
  linked_writer none l g s rows current h = tt
  linked_writer (some v) none g s rows current h = tt
  linked_writer (some v) (some l) none s rows current h = tt
  linked_writer (some v) (some l) (some g) s rows current (ready, h) =
      elim (Bool-cases (same_optional s.file_state current)) [
        | inl e ↦
            rw (ready, e)
              (
                refl,
                subst (λ c. (l < s.lineage) ⊎ ((l ≡ s.lineage) × (g ≤ s.generation) × Extends v c))
                    (same_optional-same s.file_state current e) h,
              )
        | inr e ↦
            rw (ready, e)
              (refl, inl (not_later l s.lineage (g ≤ s.generation) (Extends v s.file_state) h))
      ]
