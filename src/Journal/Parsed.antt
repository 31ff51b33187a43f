-- ===== src/Journal/Parsed.antt =====
-- scripts/agent/journal.py: the parse of lines, part by part, and the test on what is said of a file.
use fail_closed_agent.Base.{
  ℕ, ◌+◌, ◌≡◌, refl, sym, ap, ◌∙◌, Bool, true, false, ◌&&◌, Option, none, some, List, [], ◌∷◌, ◌++◌,
  length, arith, of_some-eq,
}
use fail_closed_agent.Journal.{
  Line, StoredRow, Outside, FileState, same, same_optional, parse_lines, verify, then_rows,
}
use fail_closed_agent.Journal.Reader.{drop}

pub drop-append {ℓ} : {A : Type ℓ} (xs ys : List A) → drop (length xs) (xs ++ ys) ≡ ys
unfolding drop
drop-append [] ys = refl
drop-append (x ∷ xs) ys = drop-append xs ys

pub append-nil {ℓ} : {A : Type ℓ} (xs : List A) → xs ++ [] ≡ xs
append-nil [] = refl
append-nil (x ∷ xs) = ap (λ ys. x ∷ ys) (append-nil xs)

pub append_assoc {ℓ} : {A : Type ℓ} (xs ys zs : List A) → (xs ++ ys) ++ zs ≡ xs ++ (ys ++ zs)
append_assoc [] ys zs = refl
append_assoc (x ∷ xs) ys zs = ap (λ l. x ∷ l) (append_assoc xs ys zs)

pub length-append {ℓ} : {A : Type ℓ} (xs ys : List A) → length (xs ++ ys) ≡ length xs + length ys
length-append [] ys = ground arith
length-append (x ∷ xs) ys = ground (arith, length-append xs ys)

pub same-eq : (a b : FileState) → same a b ≡ true → a ≡ b
unfolding same
same-eq a b h =
    let version : a.version ≡ b.version = ground arith in
    let size : a.size ≡ b.size = ground arith in
    ap (λ v. the_state v a.size) version ∙ ap (λ z. the_state b.version z) size
  where
    the_state : ℕ → ℕ → FileState
    the_state v z = record { version = v; size = z }

pub same_optional-eq :
    (a : Option FileState) (b : FileState) → same_optional a (some b) ≡ true → a ≡ some b
same_optional-eq none b h = absurd (cc h)
same_optional-eq (some a) b h = ap some (same-eq a b h)

pub same_optional-same : (a b : Option FileState) → same_optional a b ≡ true → a ≡ b
same_optional-same none none h = refl
same_optional-same (some a) none h = absurd (cc h)
same_optional-same a (some b) h = same_optional-eq a b h

abbrev pub joined : List StoredRow → Option (List StoredRow) → Option (List StoredRow)
joined rows none = none
joined rows (some new_rows) = some (rows ++ new_rows)

module _ (o : Outside) where
  pub then_rows-inv :
      (v : Option StoredRow) (p : Option (List StoredRow)) (rows : List StoredRow)
      → then_rows v p ≡ some rows
      → (row : StoredRow) × (rest : List StoredRow) × (v ≡ some row)
        × (p ≡ some rest)
        × (rows ≡ row ∷ rest)
  then_rows-inv (some row) (some rest) rows h = (row, rest, refl, refl, sym (of_some-eq _ rows h))
  then_rows-inv (some row) none rows h = absurd (cc h)
  then_rows-inv none p rows h = absurd (cc h)

  pub parse_lines-append :
      (xs ys : List Line) (rows : List StoredRow)
      → parse_lines o xs ≡ some rows
      → parse_lines o (xs ++ ys) ≡ joined rows (parse_lines o ys)
  unfolding parse_lines
  parse_lines-append [] ys rows h =
      none_joined (parse_lines o ys) ∙ ap (λ r. joined r (parse_lines o ys)) (of_some-eq [] rows h)
    where
      none_joined : (p : Option (List StoredRow)) → p ≡ joined [] p
      none_joined none = refl
      none_joined (some rows) = refl
  parse_lines-append (x ∷ xs) ys rows h =
      let (row, rest, v, p, e) = then_rows-inv (verify o x) (parse_lines o xs) rows h in
      rw (v, parse_lines-append xs ys rest p, e) (one (parse_lines o ys) row rest)
    where
      one :
          (p : Option (List StoredRow)) (row : StoredRow) (rest : List StoredRow)
          → then_rows (some row) (joined rest p) ≡ joined (row ∷ rest) p
      one none row rest = refl
      one (some rows) row rest = refl

  pub and_true : (a b : Bool) → (a && b) ≡ true → (a ≡ true) × (b ≡ true)
  and_true true b h = (refl, h)
  and_true false b h = absurd (cc h)
