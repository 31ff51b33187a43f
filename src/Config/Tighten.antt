-- ===== src/Config/Tighten.antt =====
-- What an overlay can do to a configuration: scripts/agent/config.py, tighten_only_merge.
use text.Mathlib.TextEquality.{eq_iff}
use fail_closed_agent.Base.{
  ◌≡◌, refl, sym, ap, ◌∙◌, ◌⊎◌, inl, inr, true, false, Option, none, some, List, [], ◌∷◌, arith,
  String, str_eq, Option-cases, Bool-cases,
}
use fail_closed_agent.Base.Int.{ℤ, ◌≤ℤ◌, min_ℤ}
use fail_closed_agent.Config.{
  Json, null, bool, num, obj, Fields, end, field, lookup, tighten_only_merge, merge_fields,
  strict_bool, walk, gate,
}

abbrev merge_with : Json → Option Json → Json
merge_with v none = v
merge_with v (some w) = tighten_only_merge v w

merge_fields-field :
    (k : String) (v : Json) (fs a : Fields)
    → merge_fields (field k v fs) a ≡ field k (merge_with v (lookup k a)) (merge_fields fs a)
unfolding merge_fields
merge_fields-field k v fs a = elim (Option-cases (lookup k a)) [
  | inl e ↦ rw e refl
  | inr (w, e) ↦ rw e refl
]

merge_fields-end : (a : Fields) → merge_fields end a ≡ end
unfolding merge_fields
merge_fields-end a = refl

abbrev merge_found : Option Json → Option Json → Option Json
merge_found none o = none
merge_found (some v) o = some (merge_with v o)

-- A key of the merged object is a key of the base, under the overlay's entry if there is one.
lookup-merge_fields :
    (k : String) (b a : Fields)
    → lookup k (merge_fields b a) ≡ merge_found (lookup k b) (lookup k a)
unfolding lookup
lookup-merge_fields k end a = rw merge_fields-end refl
lookup-merge_fields k (field j v fs) a = rw merge_fields-field (elim (Bool-cases (str_eq j k)) [
  | inl same ↦ rw (same, (eq_iff j k).0 same) refl
  | inr other ↦ rw other (lookup-merge_fields k fs a)
])

-- What a merge leaves at a node: the base's value, or that value tightened once more.
abbrev Tightened : Json → Json → Type 0
Tightened w v = (v ≡ w) ⊎ ((u : Json) × (v ≡ tighten_only_merge w u))

abbrev walk_step : Option Json → List String → Option Json
walk_step none ks = none
walk_step (some w) ks = walk w ks

walk_step-merge_found :
    (x y : Option Json) (ks : List String) {v : Json}
    → ((b o : Json)
        → walk (tighten_only_merge b o) ks ≡ some v
        → (w : Json) × (walk b ks ≡ some w) × Tightened w v)
    → walk_step (merge_found x y) ks ≡ some v
    → (w : Json) × (walk_step x ks ≡ some w) × Tightened w v
walk_step-merge_found none y ks ih h = cc
walk_step-merge_found (some x) none ks {v} ih h = (v, h, inl refl)
walk_step-merge_found (some x) (some y) ks ih h = ih x y h

walk-obj :
    (k : String) (ks : List String) (b : Fields) → walk (obj b) (k ∷ ks) ≡ walk_step (lookup k b) ks
unfolding walk
walk-obj k ks b = elim (Option-cases (lookup k b)) [
  | inl e ↦ rw (e, walk) refl
  | inr (w, e) ↦ rw (e, walk) refl
]

walk_merged-obj :
    (k : String) (ks : List String) (b a : Fields)
    → walk (tighten_only_merge (obj b) (obj a)) (k ∷ ks)
      ≡ walk_step (merge_found (lookup k b) (lookup k a)) ks
unfolding tighten_only_merge
walk_merged-obj k ks b a =
    walk-obj k ks (merge_fields b a) ∙ ap (λ x. walk_step x ks) (lookup-merge_fields k b a)

-- Every node of the merged configuration stands in the base, as it was or tightened.
pub walk-merge :
    (path : List String) (b o : Json) {v : Json}
    → walk (tighten_only_merge b o) path ≡ some v
    → (w : Json) × (walk b path ≡ some w) × Tightened w v
unfolding walk tighten_only_merge
walk-merge [] b o h = (b, refl, inr (o, cc))
walk-merge (k ∷ ks) (obj b) (obj a) {v} h =
    let (w, found, t) =
      walk_step-merge_found (lookup k b) (lookup k a) ks (λ x y. walk-merge ks x y)
        (sym (walk_merged-obj k ks b a) ∙ h) in
    (w, walk-obj k ks b ∙ found, t)
walk-merge (k ∷ ks) (bool b) (bool a) h = cc
walk-merge (k ∷ ks) (num b) (num a) h = cc
walk-merge (k ∷ ks) b o {v} h = (v, h, inl refl)

-- Where base and overlay both have a node, the merged configuration has the merge of the two.
walk-merge_both :
    (path : List String) (b o : Json) {v u : Json}
    → walk b path ≡ some v
    → walk o path ≡ some u
    → walk (tighten_only_merge b o) path ≡ some (tighten_only_merge v u)
unfolding walk
walk-merge_both [] b o h k = cc
walk-merge_both (k ∷ ks) (obj b) (obj a) h g =
    walk_merged-obj k ks b a
    ∙ both (lookup k b) (lookup k a) (λ x y. walk-merge_both ks x y) (sym (walk-obj k ks b) ∙ h)
        (sym (walk-obj k ks a) ∙ g)
  where
    both :
        {v u : Json} (x y : Option Json)
        → ((b o : Json)
            → walk b ks ≡ some v
            → walk o ks ≡ some u
            → walk (tighten_only_merge b o) ks ≡ some (tighten_only_merge v u))
        → walk_step x ks ≡ some v
        → walk_step y ks ≡ some u
        → walk_step (merge_found x y) ks ≡ some (tighten_only_merge v u)
    both none y ih h g = cc
    both (some x) none ih h g = cc
    both (some x) (some y) ih h g = ih x y h g
walk-merge_both (k ∷ ks) (obj b) null h g = cc
walk-merge_both (k ∷ ks) (obj b) o h g = cc
walk-merge_both (k ∷ ks) b o h g = cc

strict_bool_of_Tightened :
    (w v : Json) → Tightened w v → strict_bool v ≡ true → strict_bool w ≡ true
unfolding tighten_only_merge
strict_bool_of_Tightened w v (inl e) h = cc
strict_bool_of_Tightened w v (inr (u, e)) h = merged w u (ap strict_bool (sym e) ∙ h)
  where
    merged : (w u : Json) → strict_bool (tighten_only_merge w u) ≡ true → strict_bool w ≡ true
    merged (bool b) (bool a) h = ground arith
    merged (obj b) (obj a) h = cc
    merged (num b) (num a) h = cc
    merged w u h = h

-- No overlay turns a gate on: a gate that is open after the merge was open in the base.
pub gate_merge_never_opens :
    (path : List String) (b o : Json)
    → gate (tighten_only_merge b o) path ≡ true
    → gate b path ≡ true
unfolding gate
gate_merge_never_opens path b o h = elim (Option-cases (walk (tighten_only_merge b o) path)) [
  | inl e ↦ absurd (cc e)
  | inr (v, e) ↦ opens v e
]
  where
    opens : (v : Json) → walk (tighten_only_merge b o) path ≡ some v → gate b path ≡ true
    opens v e =
        let (w, found, t) = walk-merge path b o e in
        rw (found, gate) (strict_bool_of_Tightened w v t (rw (e, gate) at h))

pub gate_of_none : (path : List String) (c : Json) → walk c path ≡ none → gate c path ≡ false
unfolding gate
gate_of_none path c e = rw (e, gate) refl

gate_of_walk :
    (path : List String) (c : Json) {v : Json} → walk c path ≡ some v → gate c path ≡ strict_bool v
unfolding gate
gate_of_walk path c e = rw (e, gate) refl

-- The overlay can turn any gate off: where it holds `false`, the merged gate is shut.
pub gate_merge_closes :
    (path : List String) (b o : Json)
    → walk o path ≡ some (bool false)
    → gate (tighten_only_merge b o) path ≡ false
gate_merge_closes path b o h = elim (Option-cases (walk b path)) [
  | inl e ↦ elim (Bool-cases (gate (tighten_only_merge b o) path)) [
    | inl opened ↦ absurd (cc (gate_merge_never_opens path b o opened, gate_of_none path b e))
    | inr shut ↦ shut
  ]
  | inr (w, e) ↦
      gate_of_walk path (tighten_only_merge b o) (walk-merge_both path b o e h) ∙ shut_by w
]
  where
    shut_by : (w : Json) → strict_bool (tighten_only_merge w (bool false)) ≡ false
    shut_by (bool true) = unfold tighten_only_merge in refl
    shut_by (bool false) = unfold tighten_only_merge in refl
    shut_by w = unfold tighten_only_merge in refl

merge_num : (w u : Json) {n : ℤ} → tighten_only_merge w u ≡ num n → (m : ℤ) × (w ≡ num m) × (n ≤ℤ m)
unfolding tighten_only_merge
merge_num (num m) (num c) {n} h = (m, refl, ground arith)
merge_num (bool b) (bool a) h = absurd (cc h)
merge_num (obj b) (obj a) h = absurd (cc h)
merge_num (num m) u {n} h = (m, refl, ground arith)
merge_num w u h = absurd (cc h)

same_num : {n m : ℤ} → ◌≡◌ {A = Option Json} (some (num n)) (some (num m)) → n ≡ m
same_num e = cc

merge_num_both : (m c : ℤ) → tighten_only_merge (num m) (num c) ≡ num (min_ℤ m c)
unfolding tighten_only_merge
merge_num_both m c = refl

number_of_Tightened : (w : Json) {n : ℤ} → Tightened w (num n) → (m : ℤ) × (w ≡ num m) × (n ≤ℤ m)
number_of_Tightened w {n} (inl e) = (n, sym e, omega arith)
number_of_Tightened w (inr (u, e)) = merge_num w u (sym e)

-- A number of the merged configuration is at most the base's, and where both have a number it is
-- the smaller of the two.
pub number_merge :
    (path : List String) (b o : Json) {n : ℤ}
    → walk (tighten_only_merge b o) path ≡ some (num n)
    → (m : ℤ) × (walk b path ≡ some (num m))
      × (n ≤ℤ m)
      × ((c : ℤ) → walk o path ≡ some (num c) → n ≡ min_ℤ m c)
number_merge path b o {n} h =
    let (w, found, t) = walk-merge path b o h in
    let (m, same, least) = number_of_Tightened w t in
    let found' : walk b path ≡ some (num m) = found ∙ ap some same in
    (
      m,
      found',
      least,
      λ c k. same_num (sym h ∙ walk-merge_both path b o found' k ∙ ap some (merge_num_both m c)),
    )
