-- ===== src/Exec/Token/Tests.antt =====
-- Witnesses of the theorems on tokens: an opening authorization minted at 1000 ms, generation 4.
use fail_closed_agent.Base.{ℕ, ◌≡◌, ◌≢◌, ◌↔◌, ◌⊎◌, refl, true, some, none, [], ◌∷◌}
use fail_closed_agent.Base.Int.{pos, negsuc}
use fail_closed_agent.Exec.Order.{buy, IntentId, OrderIntent}
use fail_closed_agent.Exec.Token.{
  open_kind, reduce_only_kind, Authorization, open_token, reduce_only_token, nonce_of, Registry,
  Reading, forgery, ok, err, authorization_of, consume, Position, mint_reduce_only_token, minted,
}
use fail_closed_agent.Exec.Token.Consume.{IsLive, consume_single_use, consume_iff}
use fail_closed_agent.Exec.Token.Reduce.{filled, Decreases, mint_reduce_iff}

abbrev authorization : Authorization
authorization = record {
  kind = open_kind;
  symbol = 7;
  side = buy;
  qty = pos 10;
  limit_price = some (pos 15000);
  kill_generation = some 4;
  minted_at_ms = some 1000;
}

abbrev registry : Registry
registry = record { authorizations = (0, authorization) ∷ []; next_nonce = 1; runtime_bound = true }

abbrev reading : Reading
reading = record { now_ms = 3000; generation = 4 }

abbrev short : Position
short = record { symbol = 7; qty = negsuc 9 }

abbrev cover : OrderIntent
cover = record {
  symbol = 7;
  side = buy;
  qty = pos 4;
  limit_price = none;
  is_reducing = true;
  intent_id = IntentId.named 1;
}

consume_single_use_example :
    let r' = (consume (open_token 0) reading registry).1 in
    (authorization_of (open_token 0) r' ≡ none)
    × (consume (open_token 0) reading r' ≡ (err forgery, r'))
    × (nonce_of (open_token 0) ≢ nonce_of (reduce_only_token 1)
        → authorization_of (reduce_only_token 1) r'
          ≡ authorization_of (reduce_only_token 1) registry)
consume_single_use_example =
    consume_single_use (open_token 0) (reduce_only_token 1) reading reading registry

consume_iff_example : ((consume (open_token 0) reading registry).0 ≡ ok authorization) ↔ (
    (authorization_of (open_token 0) registry ≡ some authorization)
    × ((open_kind ≡ reduce_only_kind) ⊎ IsLive authorization true reading))
consume_iff_example = consume_iff (open_token 0) reading registry authorization

mint_reduce_iff_example :
    ((n : ℕ) × (r' : Registry) × (mint_reduce_only_token (some short) cover registry ≡ minted n r'))
    ↔ ((true ≡ true) × (◌≡◌ {A = ℕ} 7 7) × Decreases (negsuc 9) (filled (negsuc 9) buy (pos 4)))
mint_reduce_iff_example = mint_reduce_iff short cover registry refl
