-- ===== src/Risk/Loss.antt =====
-- scripts/agent/risk/loss_limits.py: the high-water mark and the two loss caps. Money counts one
-- smallest unit. The journal rows are the returned flags: whether a new high was written.
pub mod Monitor
pub mod Rehydrate
mod Tests
use fail_closed_agent.Base.{
  ℕ, Bool, true, false, Option, none, some, List, [], ◌∷◌, ◌++◌, when, if◌then◌else◌,
}
use fail_closed_agent.Risk.Account.{AccountStatus, fresh, BrokerAccountRead, AccountRead}
use fail_closed_agent.Base.Int.{ℤ, ltb_ℤ, ◌-ℤ◌}

pub data Cause : Type 0 where
  daily_loss_cap drawdown_cap : Cause

pub data Breach : Type 0 where
  daily_loss_breached drawdown_breached : Breach

pub record TripSignal : Type 0 where
  pub cause : Cause
  pub measured_usd : ℤ
  pub cap_usd : ℤ
  pub equity : ℤ
  pub session_date_et : ℕ
  pub account_snapshot_id : ℕ

pub record Caps : Type 0 where
  pub max_daily_loss_usd : ℤ
  pub max_drawdown_usd : ℤ

pub record LossMonitor : Type 0 where
  pub hwm : Option ℤ
  pub daily_loss : Option ℤ
  pub drawdown : Option ℤ
  pub breaches : List Breach

pub new : LossMonitor
new = record { hwm = none; daily_loss = none; drawdown = none; breaches = [] }

-- the high-water mark after a fresh read
pub raised : Option ℤ → ℤ → ℤ
raised none equity = equity
raised (some h) equity = if ltb_ℤ h equity then equity else h

unfoldable pub signal : Caps → BrokerAccountRead → ℕ → ℤ → ℤ → Option TripSignal
signal caps read date loss fall =
    if ltb_ℤ caps.max_daily_loss_usd loss
    then some record {
      cause = daily_loss_cap;
      measured_usd = loss;
      cap_usd = caps.max_daily_loss_usd;
      equity = read.equity;
      session_date_et = date;
      account_snapshot_id = read.account_snapshot_id;
    }
    else if ltb_ℤ caps.max_drawdown_usd fall
    then some record {
      cause = drawdown_cap;
      measured_usd = fall;
      cap_usd = caps.max_drawdown_usd;
      equity = read.equity;
      session_date_et = date;
      account_snapshot_id = read.account_snapshot_id;
    }
    else none

abbrev pub has_fresh_status : AccountStatus → Bool
has_fresh_status fresh = true
has_fresh_status _ = false

-- a fresh read is there (`AccountStore.get`)
unfoldable pub observe_fresh :
    Caps → Option BrokerAccountRead → ℕ → LossMonitor → Option TripSignal × LossMonitor
observe_fresh caps none date m = (none, m)
observe_fresh caps (some read) date m =
    let high = raised m.hwm read.equity in
    let loss = read.last_equity -ℤ read.equity in
    let fall = high -ℤ read.equity in
    (
      signal caps read date loss fall,
      record {
        hwm = some high;
        daily_loss = some loss;
        drawdown = some fall;
        breaches =
            when (ltb_ℤ caps.max_daily_loss_usd loss) daily_loss_breached
            ++ when (ltb_ℤ caps.max_drawdown_usd fall) drawdown_breached;
      },
    )

unfoldable pub observe : Caps → AccountRead → ℕ → LossMonitor → Option TripSignal × LossMonitor
unfolding observe_fresh
observe caps read date m =
    if has_fresh_status read.status then observe_fresh caps read.read date m else (none, m)

pub observe_all : Caps → ℕ → List AccountRead → LossMonitor → LossMonitor
observe_all caps date [] m = m
observe_all caps date (read ∷ rest) m = observe_all caps date rest (observe caps read date m).1
