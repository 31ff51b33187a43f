-- ===== src/Risk/Loss/Monitor.antt =====
-- scripts/agent/risk/loss_limits.py, LossLimitsMonitor: the high-water mark and the signal.
use mathlib.Core.List.{Memᴰ}
use fail_closed_agent.Base.{
  All, ◌++◌, sym, of_some-eq, ℕ, ◌≡◌, ◌↔◌, ◌⊎◌, inl, inr, refl, subst, true, Option, none, some,
  List, [], ◌∷◌, arith, is_some, Bool-cases, if◌then◌else◌,
}
use fail_closed_agent.Base.Int.{ℤ, pos, ◌≤ℤ◌, ◌<ℤ◌, ◌-ℤ◌, -ℤ_parts}
use fail_closed_agent.Risk.Account.{
  AccountStatus, fresh, stale, missing, invalid, skew, AccountRead, BrokerAccountRead,
}
use fail_closed_agent.Risk.Loss.{
  has_fresh_status, Caps, LossMonitor, raised, signal, observe_fresh, observe, observe_all,
}

-- what a read adds to the equities of the fresh ones
abbrev pub with_equity : AccountStatus → Option BrokerAccountRead → List ℤ → List ℤ
with_equity fresh (some read) below = read.equity ∷ below
with_equity _ _ below = below

-- the equities of the fresh reads
pub fresh_equities : List AccountRead → List ℤ
fresh_equities [] = []
fresh_equities (account ∷ rest) = with_equity account.status account.read (fresh_equities rest)

abbrev pub earlier : Option ℤ → List ℤ
earlier none = []
earlier (some h) = h ∷ []

-- `x` is one of the numbers, and none of them is above it; there is none of no numbers.
pub IsGreatest : List ℤ → Option ℤ → Type 0
IsGreatest xs none = xs ≡ []
IsGreatest xs (some x) = Memᴰ x xs × All (λ y. y ≤ℤ x) xs

abbrev marked : Option ℤ → Option BrokerAccountRead → Option ℤ
marked h none = h
marked h (some read) = some (raised h read.equity)

observe_fresh-hwm :
    (caps : Caps) (o : Option BrokerAccountRead) (date : ℕ) (m : LossMonitor)
    → (observe_fresh caps o date m).1.hwm ≡ marked m.hwm o
unfolding observe_fresh
observe_fresh-hwm caps none date m = refl
observe_fresh-hwm caps (some read) date m = refl

observe-hwm :
    (caps : Caps) (read : AccountRead) (date : ℕ) (m : LossMonitor)
    → (observe caps read date m).1.hwm
      ≡ (if has_fresh_status read.status then marked m.hwm read.read else m.hwm)
unfolding observe
observe-hwm caps read date m = elim (Bool-cases (has_fresh_status read.status)) [
  | inl e ↦ rw e (observe_fresh-hwm caps read.read date m)
  | inr e ↦ rw e refl
]

raised-cases : (k e : ℤ) → (raised (some k) e ≡ e) × (k ≤ℤ e) ⊎ (raised (some k) e ≡ k) × (e ≤ℤ k)
unfolding raised
raised-cases k e = ground arith

le_trans : (a b c : ℤ) → a ≤ℤ b → b ≤ℤ c → a ≤ℤ c
le_trans a b c h g = ground arith

raise_above :
    (k e : ℤ) (es : List ℤ) (f : Option ℤ)
    → k ≤ℤ e
    → IsGreatest (e ∷ es) f
    → IsGreatest (k ∷ e ∷ es) f
unfolding IsGreatest All
raise_above k e es none le h = absurd (cc h)
raise_above k e es (some x) le (m, (first, rest)) =
    (Memᴰ.tail m, (le_trans k e x le first, (first, rest)))

keep_above :
    (k e : ℤ) (es : List ℤ) (f : Option ℤ)
    → e ≤ℤ k
    → IsGreatest (k ∷ es) f
    → IsGreatest (k ∷ e ∷ es) f
unfolding IsGreatest All
keep_above k e es none le h = absurd (cc h)
keep_above k e es (some x) le (m, (first, rest)) =
    (under m, (first, (le_trans e k x le first, rest)))
  where
    under : Memᴰ x (k ∷ es) → Memᴰ x (k ∷ e ∷ es)
    under (Memᴰ.head h) = Memᴰ.head h
    under (Memᴰ.tail n) = Memᴰ.tail (Memᴰ.tail n)

raised-IsGreatest :
    (h : Option ℤ) (e : ℤ) (es : List ℤ) (f : Option ℤ)
    → IsGreatest (raised h e ∷ es) f
    → IsGreatest (earlier h ++ e ∷ es) f
unfolding raised
raised-IsGreatest none e es f g = g
raised-IsGreatest (some k) e es f g = elim (raised-cases k e) [
  | inl (is_e, le) ↦ raise_above k e es f le (subst (λ y. IsGreatest (y ∷ es) f) is_e g)
  | inr (is_k, le) ↦ keep_above k e es f le (subst (λ y. IsGreatest (y ∷ es) f) is_k g)
]

read-IsGreatest :
    (status : AccountStatus) (read : Option BrokerAccountRead) (h : Option ℤ) (es : List ℤ)
    (f : Option ℤ)
    → IsGreatest (earlier (if has_fresh_status status then marked h read else h) ++ es) f
    → IsGreatest (earlier h ++ with_equity status read es) f
read-IsGreatest fresh none h es f g = g
read-IsGreatest fresh (some read) h es f g = raised-IsGreatest h read.equity es f g
read-IsGreatest stale read h es f g = g
read-IsGreatest missing read h es f g = g
read-IsGreatest invalid read h es f g = g
read-IsGreatest skew read h es f g = g

alone-IsGreatest : (h : Option ℤ) → IsGreatest (earlier h ++ []) h
unfolding IsGreatest All
alone-IsGreatest none = refl
alone-IsGreatest (some k) = (Memᴰ.head refl, (ground arith, tt))

-- The mark after any reads is the greatest of the mark before and of the equities that were fresh;
-- no other read moves it.
pub observe_all-IsGreatest :
    (caps : Caps) (date : ℕ) (reads : List AccountRead) (m : LossMonitor)
    → IsGreatest (earlier m.hwm ++ fresh_equities reads) (observe_all caps date reads m).hwm
unfolding observe_all fresh_equities
observe_all-IsGreatest caps date [] m = alone-IsGreatest m.hwm
observe_all-IsGreatest caps date (account ∷ rest) m =
    let m' = (observe caps account date m).1 in
    read-IsGreatest account.status account.read m.hwm (fresh_equities rest)
      (observe_all caps date rest m').hwm
      (subst
        (λ h. IsGreatest (earlier h ++ fresh_equities rest) (observe_all caps date rest m').hwm)
        (observe-hwm caps account date m) (observe_all-IsGreatest caps date rest m'))

signal_trips_iff :
    (caps : Caps) (read : BrokerAccountRead) (date : ℕ) (loss fall : ℤ)
    → (is_some (signal caps read date loss fall) ≡ true)
      ↔ ((caps.max_daily_loss_usd <ℤ loss) ⊎ (caps.max_drawdown_usd <ℤ fall))
unfolding signal
signal_trips_iff caps read date loss fall = (λ h. ground arith, λ h. ground arith)

nothing_fallen : (e cap : ℤ) → cap <ℤ (e -ℤ e) → cap <ℤ pos 0
nothing_fallen e cap h = let z = -ℤ_parts e e in ground arith

below_nothing : (e cap : ℤ) → cap <ℤ pos 0 → cap <ℤ (e -ℤ e)
below_nothing e cap h = let z = -ℤ_parts e e in ground arith

risen : (k e cap : ℤ) → k ≤ℤ e → cap <ℤ (k -ℤ e) → cap <ℤ pos 0
risen k e cap le h = let z = -ℤ_parts k e in ground arith

not_risen : (k e cap : ℤ) → e ≤ℤ k → cap <ℤ pos 0 → cap <ℤ (k -ℤ e)
not_risen k e cap le h = let z = -ℤ_parts k e in ground arith

raised-none : (e : ℤ) → raised none e ≡ e
unfolding raised
raised-none e = refl

fall_iff :
    (h : Option ℤ) (e cap : ℤ)
    → (cap <ℤ (raised h e -ℤ e)) ↔ ((cap <ℤ pos 0) ⊎ ((k : ℤ) × (h ≡ some k) × (cap <ℤ (k -ℤ e))))
fall_iff none e cap = rw (raised-none e) (
  λ h. inl (nothing_fallen e cap h),
  λ h. elim h [ inl below ↦ below_nothing e cap below | inr (k, e', _) ↦ absurd (cc e') ],
)
fall_iff (some k) e cap = elim (raised-cases k e) [
  | inl (is_e, le) ↦ rw is_e (
    λ h. inl (nothing_fallen e cap h),
    λ h. elim h [
      | inl below ↦ below_nothing e cap below
      | inr (j, same, above) ↦
          below_nothing e cap
            (risen k e cap le (subst (λ x. cap <ℤ (x -ℤ e)) (sym (of_some-eq k j same)) above))
    ],
  )
  | inr (is_k, le) ↦ rw is_k (
    λ h. inr (k, refl, h),
    λ h. elim h [
      | inl below ↦ not_risen k e cap le below
      | inr (j, same, above) ↦ subst (λ x. cap <ℤ (x -ℤ e)) (sym (of_some-eq k j same)) above
    ],
  )
]

-- A read trips the kill switch exactly if it is fresh and has lost more than the cap of the day, or
-- lies more than the other cap below the mark of before; where that cap is negative, every fresh
-- read trips.
pub observe_trips_iff :
    (caps : Caps) (read : BrokerAccountRead) (status : AccountStatus) (date : ℕ) (m : LossMonitor)
    → (is_some
          (observe caps
            (record { status = status; read = some read; age_ms = none; invalid_reason = none })
            date
            m).0
        ≡ true)
      ↔ ((status ≡ fresh)
          × ((caps.max_daily_loss_usd <ℤ (read.last_equity -ℤ read.equity))
              ⊎ (caps.max_drawdown_usd <ℤ pos 0)
              ⊎ ((h : ℤ) × (m.hwm ≡ some h) × (caps.max_drawdown_usd <ℤ (h -ℤ read.equity)))))
unfolding observe observe_fresh
observe_trips_iff caps read fresh date m =
    let (f, b) =
      signal_trips_iff caps read date (read.last_equity -ℤ read.equity)
        (raised m.hwm read.equity -ℤ read.equity) in
    let (drop, fell) = fall_iff m.hwm read.equity caps.max_drawdown_usd in
    (
      λ h. (refl, elim (f h) [ inl loss ↦ inl loss | inr fall ↦ inr (drop fall) ]),
      λ (_, h). b (elim h [ inl loss ↦ inl loss | inr fall ↦ inr (fell fall) ]),
    )
observe_trips_iff caps read stale date m = (λ h. absurd (cc h), λ (e, _). absurd (cc e))
observe_trips_iff caps read missing date m = (λ h. absurd (cc h), λ (e, _). absurd (cc e))
observe_trips_iff caps read invalid date m = (λ h. absurd (cc h), λ (e, _). absurd (cc e))
observe_trips_iff caps read skew date m = (λ h. absurd (cc h), λ (e, _). absurd (cc e))
