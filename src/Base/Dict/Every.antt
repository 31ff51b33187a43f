-- ===== src/Base/Dict/Every.antt =====
-- A property of every value of a dict, and what keeps it.
use fail_closed_agent.Base.{
  ℕ, ◌≡◌, inl, inr, subst, of_some-eq, Bool-cases, Bool, true, false, Option, some, [], ◌∷◌, ◌==◌,
  if◌then◌else◌,
}
use fail_closed_agent.Base.Dict.{Dict, lookup, insert, erase}

module _ {ℓ ℓ'} {V : Type ℓ} (Q : V → Type ℓ') where
  unfoldable pub Every : Dict V → Type ℓ'
  Every [] = Unit
  Every ((k, v) ∷ d) = Q v × Every d

  pub insert-Every : (k : ℕ) (v : V) (d : Dict V) → Q v → Every d → Every (insert k v d)
  unfolding Every insert
  insert-Every k v [] h s = (h, tt)
  insert-Every k v ((j, w) ∷ d) h (q, s) = elim (Bool-cases (k == j)) [
    | inl e ↦ rw e (h, s)
    | inr e ↦ rw e (q, insert-Every k v d h s)
  ]

  pub erase-Every : (k : ℕ) (d : Dict V) → Every d → Every (erase k d)
  unfolding Every erase
  erase-Every k [] s = tt
  erase-Every k ((j, w) ∷ d) (q, s) =
      let rest = erase-Every k d s in
      elim (Bool-cases (k == j)) [ inl e ↦ rw e rest | inr e ↦ rw e (q, rest) ]

  picked :
      (b : Bool) (w v : V) (o : Option V)
      → Q w
      → (o ≡ some v → Q v)
      → (if b then some w else o) ≡ some v
      → Q v
  picked true w v o q h e = subst Q (of_some-eq w v e) q
  picked false w v o q h e = h e

  pub lookup-Every : (k : ℕ) (v : V) (d : Dict V) → Every d → lookup k d ≡ some v → Q v
  unfolding Every lookup
  lookup-Every k v [] s e = absurd (cc e)
  lookup-Every k v ((j, w) ∷ d) (q, s) e =
      picked (k == j) w v (lookup k d) q (lookup-Every k v d s) e
