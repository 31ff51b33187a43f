-- ===== src/Exec/OrderState/Fills.antt =====
-- scripts/agent/broker/order_state.py, fill_delta: the increments of one order
-- add up.
use fail_closed_agent.Base.{
  ◌≡◌, inl, inr, refl, sym, ap, ◌∙◌, arith, Bool-cases, true, false, Option, some, List, [], ◌∷◌,
}
use fail_closed_agent.Base.Int.{
  ℤ, pos, ◌+ℤ◌, ◌-ℤ◌, ◌<ℤ◌, ltb_ℤ, leb_ℤ, eqb_ℤ, -ℤ_parts, eq_of_parts,
}
use fail_closed_agent.Exec.OrderState.{
  Parsed, good, bad, BrokerOrder, FillDelta, Increment, invalid, unchanged, filled_by, increment,
  costed, cost, prev_cost, prev_qty, fill_delta, next_cursor, emitted, poll,
}

pub total_qty : List FillDelta → ℤ
total_qty [] = pos 0
total_qty (d ∷ ds) = d.delta_qty +ℤ total_qty ds

pub total_cost : List FillDelta → ℤ
total_cost [] = pos 0
total_cost (d ∷ ds) = d.delta_cost +ℤ total_cost ds

-- what an increment from `prev` to `cur` says
Tracks : Option BrokerOrder → BrokerOrder → Increment → Type 0
Tracks prev cur (filled_by d) =
    (pos 0 <ℤ d.delta_qty)
    × (pos 0 <ℤ d.delta_cost)
    × (d.delta_qty ≡ cur.filled_qty -ℤ prev_qty prev)
    × (d.cum_filled_qty ≡ cur.filled_qty)
    × ((paid : ℤ) × (total : ℤ) × (prev_cost prev ≡ good paid)
        × (cost cur ≡ good total)
        × (d.delta_cost ≡ total -ℤ paid))
Tracks prev cur unchanged = cur.filled_qty ≡ prev_qty prev
Tracks prev cur (invalid d) = Unit

above : (x y : ℤ) → ltb_ℤ x y ≡ false → eqb_ℤ x y ≡ false → pos 0 <ℤ (x -ℤ y)
above x y lt eq = let e = -ℤ_parts x y in ground arith

same : (x y : ℤ) → eqb_ℤ x y ≡ true → x ≡ y
same x y e = eq_of_parts x y (ground arith)

positive : (x : ℤ) → leb_ℤ x (pos 0) ≡ false → pos 0 <ℤ x
positive x h = ground arith

increment-Tracks :
    (prev : Option BrokerOrder) (cur : BrokerOrder) (paid total : ℤ)
    → prev_cost prev ≡ good paid
    → cost cur ≡ good total
    → Tracks prev cur (increment (prev_qty prev) paid total cur)
unfolding Tracks increment
increment-Tracks prev cur paid total p t =
    elim (Bool-cases (ltb_ℤ cur.filled_qty (prev_qty prev))) [
      | inl lt ↦ rw lt tt
      | inr lt ↦ elim (Bool-cases (eqb_ℤ cur.filled_qty (prev_qty prev))) [
        | inl eq ↦ rw (lt, eq) (same cur.filled_qty (prev_qty prev) eq)
        | inr eq ↦ elim (Bool-cases (leb_ℤ (total -ℤ paid) (pos 0))) [
          | inl le ↦ rw (lt, eq, le) tt
          | inr le ↦
              rw (lt, eq, le)
                (
                  above cur.filled_qty (prev_qty prev) lt eq,
                  positive (total -ℤ paid) le,
                  refl,
                  refl,
                  (paid, total, p, t, refl),
                )
        ]
      ]
    ]

costed-Tracks :
    (prev : Option BrokerOrder) (cur : BrokerOrder) (paid total : Parsed ℤ)
    → prev_cost prev ≡ paid
    → cost cur ≡ total
    → Tracks prev cur (costed paid total (prev_qty prev) cur)
unfolding costed Tracks
costed-Tracks prev cur (bad d) total p t = tt
costed-Tracks prev cur (good paid) (bad d) p t = tt
costed-Tracks prev cur (good paid) (good total) p t = increment-Tracks prev cur paid total p t

fill_delta-Tracks :
    (prev : Option BrokerOrder) (cur : BrokerOrder) → Tracks prev cur (fill_delta prev cur)
unfolding fill_delta
fill_delta-Tracks prev cur = costed-Tracks prev cur (prev_cost prev) (cost cur) refl refl

-- The increments add up to the way from the first cursor, of cost `paid`, to the last.
pub AddsUp : Option BrokerOrder → ℤ → List FillDelta × Option BrokerOrder → Type 0
AddsUp prev paid (ds, end) =
    (total : ℤ) × (prev_cost end ≡ good total)
    × (total_cost ds ≡ total -ℤ paid)
    × (total_qty ds ≡ prev_qty end -ℤ prev_qty prev)

chain : (a b c x y : ℤ) → x ≡ b -ℤ a → y ≡ c -ℤ b → x +ℤ y ≡ c -ℤ a
unfolding ◌+ℤ◌ ◌-ℤ◌
chain a b c x y e f = rw (e, f) (ground arith)

none_left : (a : ℤ) → pos 0 ≡ a -ℤ a
unfolding ◌-ℤ◌
none_left a = ground arith

good-eq : (a b : ℤ) → good a ≡ good b → a ≡ b
good-eq a b h = cc

filled-AddsUp :
    (prev : Option BrokerOrder) (cur : BrokerOrder) (paid : ℤ) (d : FillDelta)
    (rest : List FillDelta × Option BrokerOrder)
    → Tracks prev cur (filled_by d)
    → prev_cost prev ≡ good paid
    → ((total : ℤ) → cost cur ≡ good total → AddsUp (some cur) total rest)
    → AddsUp prev paid (d ∷ rest.0, rest.1)
unfolding Tracks AddsUp total_cost total_qty prev_qty
filled-AddsUp prev cur paid d (ds, end) (_, _, q, _, (paid', total, p, t, c)) h ih =
    let (last, at_end, costs, quantities) = ih total t in
    (
      last,
      at_end,
      chain paid total last d.delta_cost (total_cost ds)
          (c ∙ ap (λ x. total -ℤ x) (good-eq paid' paid (sym p ∙ h))) costs,
      chain (prev_qty prev) cur.filled_qty (prev_qty end) d.delta_qty (total_qty ds) q quantities,
    )

step-AddsUp :
    (prev : Option BrokerOrder) (cur : BrokerOrder) (rest : List BrokerOrder) (paid : ℤ)
    (i : Increment)
    → Tracks prev cur i
    → prev_cost prev ≡ good paid
    → ((p : Option BrokerOrder) (n : ℤ) → prev_cost p ≡ good n → AddsUp p n (poll p rest))
    → AddsUp prev paid
        (emitted i (poll (next_cursor prev cur i) rest).0, (poll (next_cursor prev cur i) rest).1)
unfolding next_cursor prev_cost
step-AddsUp prev cur rest paid (filled_by d) x h ih =
    filled-AddsUp prev cur paid d (poll (some cur) rest) x h (λ n e. ih (some cur) n e)
step-AddsUp prev cur rest paid unchanged x h ih = ih prev paid h
step-AddsUp prev cur rest paid (invalid d) x h ih = ih prev paid h

-- From a cursor of cost `paid`, the increments that the polls of an order emit add up to the cost of
-- the last snapshot they were emitted for, less `paid`, and their quantities to its quantity, less
-- the cursor's; the broker's corrections of the average price and its faults in between included.
pub poll-AddsUp :
    (prev : Option BrokerOrder) (snapshots : List BrokerOrder) (paid : ℤ)
    → prev_cost prev ≡ good paid
    → AddsUp prev paid (poll prev snapshots)
unfolding AddsUp poll total_cost total_qty
poll-AddsUp prev [] paid h = (paid, h, none_left paid, none_left (prev_qty prev))
poll-AddsUp prev (cur ∷ rest) paid h =
    step-AddsUp prev cur rest paid (fill_delta prev cur) (fill_delta-Tracks prev cur) h
      (λ p n e. poll-AddsUp p rest n e)
