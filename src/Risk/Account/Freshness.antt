-- ===== src/Risk/Account/Freshness.antt =====
-- scripts/agent/risk/account_state.py, AccountStore.get: when a read is fresh.
use fail_closed_agent.Base.{
  ℕ, ◌+◌, ◌≤◌, ◌≡◌, ◌↔◌, refl, ap, subst, ◌∙◌, Option, none, some, List, [], ◌∷◌, arith,
}
use fail_closed_agent.Risk.Account.{
  fresh, ReadResult, valid, account_invalid, AccountStore, put, get, put_all, read_of,
}

-- the last of the results, if there is one
pub last_result : Option ReadResult → List ReadResult → Option ReadResult
last_result o [] = o
last_result o (r ∷ rest) = last_result (some r) rest

-- A read that is not of the future and not older than `ttl`.
pub IsRecent : ℕ → ℕ → Option ReadResult → Type 0
IsRecent now ttl none = ⊥
IsRecent now ttl (some (account_invalid reason at)) = ⊥
IsRecent now ttl (some (valid r)) = (r.seen_at_ms ≤ now) × (now ≤ r.seen_at_ms + ttl)

read_of-fresh_iff :
    (now ttl : ℕ) (o : Option ReadResult)
    → ((read_of now ttl o).status ≡ fresh) ↔ IsRecent now ttl o
unfolding read_of IsRecent
read_of-fresh_iff now ttl none = (λ h. absurd (cc h), λ h. absurd h)
read_of-fresh_iff now ttl (some (account_invalid reason at)) = (λ h. absurd (cc h), λ h. absurd h)
read_of-fresh_iff now ttl (some (valid r)) = (λ h. ground arith, λ h. ground arith)

put_ttl : (r : ReadResult) (s : AccountStore) → (put r s).ttl_ms ≡ s.ttl_ms
unfolding put
put_ttl (valid r) s = refl
put_ttl (account_invalid reason at) s = refl

put_latest : (r : ReadResult) (s : AccountStore) → (put r s).latest ≡ some r
unfolding put
put_latest (valid r) s = refl
put_latest (account_invalid reason at) s = refl

put_all-latest :
    (rs : List ReadResult) (s : AccountStore)
    → ((put_all rs s).latest ≡ last_result s.latest rs) × ((put_all rs s).ttl_ms ≡ s.ttl_ms)
unfolding put_all last_result
put_all-latest [] s = (refl, refl)
put_all-latest (r ∷ rs) s =
    let (a, b) = put_all-latest rs (put r s) in
    (a ∙ ap (λ o. last_result o rs) (put_latest r s), b ∙ put_ttl r s)

-- After any results, the account is fresh exactly if the last of them is a read that is not of the
-- future and no older than the time to live of the store: a defect, a missing account and a clock
-- that went back are never fresh.
pub get-fresh_iff :
    (rs : List ReadResult) (s : AccountStore) (now : ℕ)
    → ((get now (put_all rs s)).status ≡ fresh) ↔ IsRecent now s.ttl_ms (last_result s.latest rs)
unfolding get
get-fresh_iff rs s now =
    let (a, b) = put_all-latest rs s in
    subst
      (λ o.
        ((read_of now (put_all rs s).ttl_ms (put_all rs s).latest).status ≡ fresh)
        ↔ IsRecent now s.ttl_ms o)
      a
      (subst
        (λ t.
          ((read_of now (put_all rs s).ttl_ms (put_all rs s).latest).status ≡ fresh)
          ↔ IsRecent now t (put_all rs s).latest)
        b (read_of-fresh_iff now (put_all rs s).ttl_ms (put_all rs s).latest))
