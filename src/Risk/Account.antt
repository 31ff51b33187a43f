-- ===== src/Risk/Account.antt =====
-- scripts/agent/risk/account_state.py, AccountStore: the freshness gate in front of the account that
-- the broker reports. Times are milliseconds, money counts one smallest unit.
pub mod Freshness
mod Tests
use fail_closed_agent.Base.{
  ℕ, ◌+◌, ◌-◌, Bool, true, false, Option, none, some, List, [], ◌∷◌, ltb, if◌then◌else◌,
}
use fail_closed_agent.Base.Int.{ℤ}

abbrev pub account_freshness_ttl_ms : ℕ
account_freshness_ttl_ms = 5000

pub data AccountStatus : Type 0 where
  fresh stale missing invalid skew : AccountStatus

pub record BrokerAccountRead : Type 0 where
  pub equity : ℤ
  pub last_equity : ℤ
  pub buying_power : ℤ
  pub daytrading_buying_power : Option ℤ
  pub seen_at_ms : ℕ
  pub account_snapshot_id : ℕ

-- What the parser returned: a read, or a defect seen at a time.
pub data ReadResult : Type 0 where
  valid : BrokerAccountRead → ReadResult
  account_invalid : ℕ → ℕ → ReadResult

pub record AccountRead : Type 0 where
  pub status : AccountStatus
  pub read : Option BrokerAccountRead
  pub age_ms : Option ℕ
  pub invalid_reason : Option ℕ

pub record AccountStore : Type 0 where
  pub ttl_ms : ℕ
  pub latest : Option ReadResult
  pub latest_read : Option BrokerAccountRead

-- `none` is the ValueError of a longer time to live
pub new_store : ℕ → Option AccountStore
new_store ttl =
    if ltb account_freshness_ttl_ms ttl
    then none
    else some (record { ttl_ms = ttl; latest = none; latest_read = none })

pub put : ReadResult → AccountStore → AccountStore
put (valid r) s = record s { latest = some (valid r); latest_read = some r }
put (account_invalid reason at) s = record s { latest = some (account_invalid reason at) }

read_of : ℕ → ℕ → Option ReadResult → AccountRead
read_of now ttl none = record {
  status = missing;
  read = none;
  age_ms = none;
  invalid_reason = none;
}
read_of now ttl (some (account_invalid reason at)) = record {
  status = invalid;
  read = none;
  age_ms = if ltb now at then none else some (now - at);
  invalid_reason = some reason;
}
read_of now ttl (some (valid r)) =
    if ltb now r.seen_at_ms
    then record { status = skew; read = none; age_ms = none; invalid_reason = none }
    else record {
      status = if ltb ttl (now - r.seen_at_ms) then stale else fresh;
      read = some r;
      age_ms = some (now - r.seen_at_ms);
      invalid_reason = none;
    }

pub get : ℕ → AccountStore → AccountRead
unfolding read_of
get now s = read_of now s.ttl_ms s.latest

pub latest_unsafe : AccountStore → Option BrokerAccountRead
latest_unsafe s = s.latest_read

pub put_all : List ReadResult → AccountStore → AccountStore
put_all [] s = s
put_all (r ∷ rest) s = put_all rest (put r s)
