-- ===== src/Exec/OrderState/Exact.antt =====
-- scripts/agent/broker/order_state.py, fill_delta: what one increment says, on every branch.
use fail_closed_agent.Base.{
  ap, ◌≡◌, ◌⊎◌, inl, inr, refl, arith, Bool-cases, true, false, Option, none, some,
}
use fail_closed_agent.Base.Int.{
  ℤ, pos, pos_part, neg_part, ◌-ℤ◌, ◌*ℤ◌, ◌≤ℤ◌, ◌<ℤ◌, ltb_ℤ, leb_ℤ, eqb_ℤ, -ℤ_parts, eq_of_parts,
}
use fail_closed_agent.Exec.OrderState.{
  good, bad, Defect, negative, missing_field, filled_qty, filled_avg_price, avg_price_without_fill,
  nonpositive_avg_price, BrokerOrder, Increment, invalid, unchanged, filled_by, increment, costed,
  cost, snapshot_cost, prev_cost, prev_qty, fill_delta,
}

-- What was filled, at this average price, cost `c`: filled quantity times average price, or nothing.
pub Costs : ℤ → Option ℤ → ℤ → Type 0
Costs q none c = (q ≡ pos 0) × (c ≡ pos 0)
Costs q (some a) c = (pos 0 <ℤ q) × (pos 0 <ℤ a) × (c ≡ q *ℤ a)

-- of no snapshot nothing is filled
pub CostsBefore : Option BrokerOrder → ℤ → Type 0
CostsBefore none c = c ≡ pos 0
CostsBefore (some o) c = Costs o.filled_qty o.filled_avg_price c

-- Between two snapshots with costs, `paid` and `total`, the fill grew, in quantity and cost.
pub Grew : Option BrokerOrder → BrokerOrder → ℤ → ℤ → Type 0
Grew prev cur paid total =
    CostsBefore prev paid
    × Costs cur.filled_qty cur.filled_avg_price total
    × (prev_qty prev <ℤ cur.filled_qty)
    × (paid <ℤ total)

-- What an increment from `prev` to `cur` says; a defect says that a snapshot has no cost, or that
-- the fill shrank, or that it grew at no cost.
pub IsExact : Option BrokerOrder → BrokerOrder → Increment → Type 0
IsExact prev cur (filled_by d) =
    (d.delta_qty ≡ cur.filled_qty -ℤ prev_qty prev)
    × (d.cum_filled_qty ≡ cur.filled_qty)
    × ((paid : ℤ) × (total : ℤ) × Grew prev cur paid total × (d.delta_cost ≡ total -ℤ paid))
IsExact prev cur unchanged =
    (cur.filled_qty ≡ prev_qty prev)
    × ((paid : ℤ) × (total : ℤ) × CostsBefore prev paid
        × Costs cur.filled_qty cur.filled_avg_price total)
IsExact prev cur (invalid d) =
    ¬ ((paid : ℤ) × CostsBefore prev paid)
    ⊎ ¬ ((total : ℤ) × Costs cur.filled_qty cur.filled_avg_price total)
    ⊎ (cur.filled_qty <ℤ prev_qty prev)
    ⊎ ((paid : ℤ) × (total : ℤ) × CostsBefore prev paid
        × Costs cur.filled_qty cur.filled_avg_price total
        × (prev_qty prev <ℤ cur.filled_qty)
        × (total ≤ℤ paid))

not_nothing : (q : ℤ) → (ltb_ℤ q (pos 0) ≡ true) ⊎ (ltb_ℤ (pos 0) q ≡ true) → ¬ (q ≡ pos 0)
not_nothing q h z = absurd (off q h (ap pos_part z) (ap neg_part z))
  where
    off :
        (q : ℤ)
        → (ltb_ℤ q (pos 0) ≡ true) ⊎ (ltb_ℤ (pos 0) q ≡ true)
        → pos_part q ≡ 0
        → neg_part q ≡ 0
        → ⊥
    off q h a b = ground arith

nothing : (q : ℤ) → ltb_ℤ q (pos 0) ≡ false → ltb_ℤ (pos 0) q ≡ false → q ≡ pos 0
nothing q less more = eq_of_parts q (pos 0) (ground arith)

not_below : (q : ℤ) → ltb_ℤ q (pos 0) ≡ true → ¬ (pos 0 <ℤ q)
not_below q e h = ground arith

not_flat : (q : ℤ) → eqb_ℤ q (pos 0) ≡ true → ¬ (pos 0 <ℤ q)
not_flat q e h = ground arith

not_low : (a : ℤ) → leb_ℤ a (pos 0) ≡ true → ¬ (pos 0 <ℤ a)
not_low a e h = ground arith

above_zero : (a : ℤ) → leb_ℤ a (pos 0) ≡ false → pos 0 <ℤ a
above_zero a e = ground arith

grown : (x y : ℤ) → ltb_ℤ x y ≡ false → eqb_ℤ x y ≡ false → y <ℤ x
grown x y lt eq = ground arith

snapshot_cost_total :
    (q : ℤ) (avg : Option ℤ)
    → ((c : ℤ) × (snapshot_cost q avg ≡ good c) × Costs q avg c)
      ⊎ ((d : Defect) × (snapshot_cost q avg ≡ bad d) × ¬ ((c : ℤ) × Costs q avg c))
unfolding snapshot_cost Costs
snapshot_cost_total q none = elim (Bool-cases (ltb_ℤ q (pos 0))) [
  | inl less ↦
      rw less
        (inr (negative filled_qty, refl, λ (c, h). let (z, _) = h in not_nothing q (inl less) z))
  | inr less ↦ elim (Bool-cases (ltb_ℤ (pos 0) q)) [
    | inl more ↦
        rw (less, more)
          (inr (
            missing_field filled_avg_price,
            refl,
            λ (c, h). let (z, _) = h in not_nothing q (inr more) z,
          ))
    | inr more ↦ rw (less, more) (inl (pos 0, refl, (nothing q less more, refl)))
  ]
]
snapshot_cost_total q (some a) = elim (Bool-cases (ltb_ℤ q (pos 0))) [
  | inl less ↦
      rw less (inr (negative filled_qty, refl, λ (c, h). let (z, _, _) = h in not_below q less z))
  | inr less ↦ elim (Bool-cases (eqb_ℤ q (pos 0))) [
    | inl flat ↦
        rw (less, flat)
          (inr (avg_price_without_fill, refl, λ (c, h). let (z, _, _) = h in not_flat q flat z))
    | inr flat ↦ elim (Bool-cases (leb_ℤ a (pos 0))) [
      | inl low ↦
          rw (less, flat, low)
            (inr (nonpositive_avg_price, refl, λ (c, h). let (_, z, _) = h in not_low a low z))
      | inr low ↦
          rw (less, flat, low)
            (inl (q *ℤ a, refl, (grown q (pos 0) less flat, above_zero a low, refl)))
    ]
  ]
]

cost_total :
    (cur : BrokerOrder)
    → ((c : ℤ) × (cost cur ≡ good c) × Costs cur.filled_qty cur.filled_avg_price c)
      ⊎ ((d : Defect) × (cost cur ≡ bad d)
          × ¬ ((c : ℤ) × Costs cur.filled_qty cur.filled_avg_price c))
unfolding cost
cost_total cur = snapshot_cost_total cur.filled_qty cur.filled_avg_price

prev_cost_total :
    (prev : Option BrokerOrder)
    → ((c : ℤ) × (prev_cost prev ≡ good c) × CostsBefore prev c)
      ⊎ ((d : Defect) × (prev_cost prev ≡ bad d) × ¬ ((c : ℤ) × CostsBefore prev c))
unfolding prev_cost cost CostsBefore
prev_cost_total none = inl (pos 0, refl, refl)
prev_cost_total (some o) = snapshot_cost_total o.filled_qty o.filled_avg_price

same : (x y : ℤ) → eqb_ℤ x y ≡ true → x ≡ y
same x y e = eq_of_parts x y (ground arith)

shrunk : (x y : ℤ) → ltb_ℤ x y ≡ true → x <ℤ y
shrunk x y e = ground arith

dearer : (total paid : ℤ) → leb_ℤ (total -ℤ paid) (pos 0) ≡ false → paid <ℤ total
dearer total paid h = let z = -ℤ_parts total paid in ground arith

no_dearer : (total paid : ℤ) → leb_ℤ (total -ℤ paid) (pos 0) ≡ true → total ≤ℤ paid
no_dearer total paid h = let z = -ℤ_parts total paid in ground arith

increment-IsExact :
    (prev : Option BrokerOrder) (cur : BrokerOrder) (paid total : ℤ)
    → CostsBefore prev paid
    → Costs cur.filled_qty cur.filled_avg_price total
    → IsExact prev cur (increment (prev_qty prev) paid total cur)
unfolding IsExact Grew increment
increment-IsExact prev cur paid total p t =
    elim (Bool-cases (ltb_ℤ cur.filled_qty (prev_qty prev))) [
      | inl lt ↦ rw lt (inr (inr (inl (shrunk cur.filled_qty (prev_qty prev) lt))))
      | inr lt ↦ elim (Bool-cases (eqb_ℤ cur.filled_qty (prev_qty prev))) [
        | inl eq ↦ rw (lt, eq) (same cur.filled_qty (prev_qty prev) eq, (paid, total, p, t))
        | inr eq ↦
            let grew = grown cur.filled_qty (prev_qty prev) lt eq in
            elim (Bool-cases (leb_ℤ (total -ℤ paid) (pos 0))) [
              | inl le ↦
                  rw (lt, eq, le)
                    (inr (inr (inr (paid, total, p, t, grew, no_dearer total paid le))))
              | inr le ↦
                  rw (lt, eq, le)
                    (refl, refl, (paid, total, (p, t, grew, dearer total paid le), refl))
            ]
      ]
    ]

-- An increment is the difference of two snapshots that have costs (filled quantity times average price,
-- or nothing where nothing is filled), of which the second has the greater quantity and the greater
-- cost; nothing changes only where the quantity did not; and a defect is reported only where a
-- snapshot has no cost, the quantity shrank, or it grew at no cost.
pub fill_delta-IsExact :
    (prev : Option BrokerOrder) (cur : BrokerOrder) → IsExact prev cur (fill_delta prev cur)
unfolding fill_delta costed IsExact
fill_delta-IsExact prev cur = elim (prev_cost_total prev) [
  | inr (d, e, lacks) ↦ rw e (inl lacks)
  | inl (paid, e, p) ↦ elim (cost_total cur) [
    | inr (d, f, lacks) ↦ rw (e, f) (inr (inl lacks))
    | inl (total, f, t) ↦ rw (e, f) (increment-IsExact prev cur paid total p t)
  ]
]
