-- ===== src/Exec/Token.antt =====
-- scripts/agent/execution_preflight.py, the token half: a registry of immutable authorizations keyed
-- by nonce. A token is a bare handle; its nonce stands for an object identity, and new ones are
-- drawn from a counter. What the bound clock and kill-generation source say is the argument
-- `reading` of `consume`; times are milliseconds and `a - b > ttl` is written `b + ttl < a`.
pub mod Consume
pub mod Reduce
mod Tests
use fail_closed_agent.Base.{
  ℕ, suc, ◌+◌, Bool, true, false, not, ◌||◌, ◌&&◌, Option, none, some, List, [], ◌∷◌, ltb, ◌==◌,
  if◌then◌else◌,
}
use fail_closed_agent.Base.Int.{ℤ, pos, ltb_ℤ, leb_ℤ, eqb_ℤ, abs}
use fail_closed_agent.Base.Dict.{Dict, lookup, insert, erase}
use fail_closed_agent.Exec.Order.{Side, buy, sell, eqb_side, OrderIntent}

abbrev pub open_token_ttl_ms : ℕ
open_token_ttl_ms = 2000

pub data Kind : Type 0 where
  open_kind reduce_only_kind : Kind

pub record Authorization : Type 0 where
  pub kind : Kind
  pub symbol : ℕ
  pub side : Side
  pub qty : ℤ
  pub limit_price : Option ℤ
  pub kill_generation : Option ℕ
  pub minted_at_ms : Option ℕ

-- `other` is any object that is no token.
pub data Token : Type 0 where
  open_token : ℕ → Token
  reduce_only_token : ℕ → Token
  other : Token

-- The module's state: the registry, the supply of nonces, and whether a runtime is bound.
pub record Registry : Type 0 where
  pub authorizations : Dict Authorization
  pub next_nonce : ℕ
  pub runtime_bound : Bool

pub record Reading : Type 0 where
  pub now_ms : ℕ
  pub generation : ℕ

pub data StaleReason : Type 0 where
  preflight_runtime_unbound open_token_expired kill_generation_changed : StaleReason

pub data TokenError : Type 0 where
  forgery : TokenError
  stale : StaleReason → TokenError

pub data Result {ℓ} (A : Type ℓ) : Type ℓ where
  ok : A → Result A
  err : TokenError → Result A

-- `_issue`, for either class of token
unfoldable pub issue : Authorization → Registry → ℕ × Registry
issue a r = (
  r.next_nonce,
  record r {
    authorizations = insert r.next_nonce a r.authorizations;
    next_nonce = suc r.next_nonce;
  },
)

abbrev pub nonce_of : Token → Option ℕ
nonce_of (open_token n) = some n
nonce_of (reduce_only_token n) = some n
nonce_of other = none

unfoldable pub authorization_of : Token → Registry → Option Authorization
authorization_of (open_token n) r = lookup n r.authorizations
authorization_of (reduce_only_token n) r = lookup n r.authorizations
authorization_of other r = none

-- `del _authorizations[token._nonce]`
unfoldable pub revoke : Token → Registry → Registry
revoke (open_token n) r = record r { authorizations = erase n r.authorizations }
revoke (reduce_only_token n) r = record r { authorizations = erase n r.authorizations }
revoke other r = r

pub data BindError : Type 0 where
  already_bound : BindError

-- `none` is the ExecError of a second binding
unfoldable pub bind_runtime : Registry → Option Registry
bind_runtime r = if r.runtime_bound then none else some (record r { runtime_bound = true })

unfoldable pub unbind_runtime : Registry → Registry
unbind_runtime r = record r { runtime_bound = false }

abbrev pub expired : Option ℕ → ℕ → Bool
expired none now = true
expired (some minted) now = ltb (minted + open_token_ttl_ms) now

abbrev pub generation_moved : Option ℕ → ℕ → Bool
generation_moved none now = true
generation_moved (some g) now = not (now == g)

-- the re-checks of the open branch of `consume`
pub staleness : Authorization → Bool → Reading → Option StaleReason
staleness a bound reading =
    if not bound
    then some preflight_runtime_unbound
    else if expired a.minted_at_ms reading.now_ms
    then some open_token_expired
    else if generation_moved a.kill_generation reading.generation
    then some kill_generation_changed
    else none

abbrev consume_open : Option StaleReason → Authorization → Result Authorization
consume_open none a = ok a
consume_open (some reason) a = err (stale reason)

abbrev consume_as : Kind → Authorization → Bool → Reading → Result Authorization
consume_as open_kind a bound reading = consume_open (staleness a bound reading) a
consume_as reduce_only_kind a bound reading = ok a

pub consume_found :
    Option Authorization → Token → Reading → Registry → Result Authorization × Registry
consume_found none token reading r = (err forgery, r)
consume_found (some a) token reading r =
    (consume_as a.kind a r.runtime_bound reading, revoke token r)

pub consume : Token → Reading → Registry → Result Authorization × Registry
unfolding consume_found
consume token reading r = consume_found (authorization_of token r) token reading r

-- `void_token` at a reason of the vocabulary; deleting what is not there changes nothing
unfoldable pub void_token : Token → Registry → Registry
unfolding revoke
void_token token r = revoke token r

-- A held position as the actuator sees it: a signed quantity.
pub record Position : Type 0 where
  pub symbol : ℕ
  pub qty : ℤ

pub data Rejected : Type 0 where
  no_position flat_position not_flagged symbol_differs wrong_side bad_qty : Rejected

pub data Minted : Type 0 where
  minted : ℕ → Registry → Minted
  rejected : Rejected → Minted

abbrev pub required_side : ℤ → Side
required_side held = if ltb_ℤ (pos 0) held then sell else buy

abbrev pub reduce_authorization : Position → OrderIntent → Authorization
reduce_authorization p intent = record {
  kind = reduce_only_kind;
  symbol = p.symbol;
  side = required_side p.qty;
  qty = intent.qty;
  limit_price = none;
  kill_generation = none;
  minted_at_ms = none;
}

-- the checks of `mint_reduce_only_token` on a position that is there
unfoldable pub reduce_defect : Position → OrderIntent → Option Rejected
reduce_defect p intent =
    if eqb_ℤ p.qty (pos 0)
    then some flat_position
    else if not intent.is_reducing
    then some not_flagged
    else if not (intent.symbol == p.symbol)
    then some symbol_differs
    else if not (eqb_side intent.side (required_side p.qty))
    then some wrong_side
    else if leb_ℤ intent.qty (pos 0) || ltb_ℤ (abs p.qty) intent.qty
    then some bad_qty
    else none

unfoldable pub mint_reduce_held : Option Rejected → Position → OrderIntent → Registry → Minted
mint_reduce_held (some defect) p intent r = rejected defect
mint_reduce_held none p intent r =
    let (n, r') = issue (reduce_authorization p intent) r in minted n r'

unfoldable pub mint_reduce_only_token : Option Position → OrderIntent → Registry → Minted
unfolding mint_reduce_held
mint_reduce_only_token none intent r = rejected no_position
mint_reduce_only_token (some p) intent r = mint_reduce_held (reduce_defect p intent) p intent r
