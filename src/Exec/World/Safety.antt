-- ===== src/Exec/World/Safety.antt =====
-- Which orders reach the broker: scripts/agent/execution_preflight.py and scripts/agent/broker/base.py
-- together.
pub mod Closed
use fail_closed_agent.Base.{
  ℕ, ◌≡◌, ◌≢◌, ◌⊎◌, inl, inr, refl, sym, subst, ap, ◌∙◌, Bool, true, false, Option, none, some,
  List, [], ◌∷◌, arith, Bool-cases, Option-cases, of_some-eq, ◌==◌, if◌then◌else◌,
}
use fail_closed_agent.Base.Int.{ℤ, pos}
use fail_closed_agent.Base.Dict.Every.{Every, insert-Every, erase-Every, lookup-Every}
use fail_closed_agent.Config.{opening_allowed}
use fail_closed_agent.Exec.Order.{Side, OrderIntent}
use fail_closed_agent.Exec.Token.{
  Kind, open_kind, reduce_only_kind, Authorization, Token, open_token, reduce_only_token, other,
  Registry, Reading, Position, issue, revoke, authorization_of, consume, void_token,
  mint_reduce_only_token, mint_reduce_held, Rejected, reduce_defect, reduce_authorization,
  bind_runtime, unbind_runtime, minted, rejected,
}
use fail_closed_agent.Exec.Token.Reduce.{filled, Decreases, reduce_defect-Decreases}
use fail_closed_agent.Exec.Broker.{require_token, submit_order}
use fail_closed_agent.Exec.Broker.Chokepoint.{
  Binds, require_token_iff, submit_order-passed, submit_order-refused, submit_order-registry,
  require_token-registry,
}
use fail_closed_agent.Exec.Preflight.Inputs.{
  PreflightInputs, PreflightPass, Outside, Evaluated, passed, refused, fatal,
}
use fail_closed_agent.Exec.Preflight.Ladder.{
  evaluate_preflight, open_authorization, mint_evaluated, mint_open_token,
}
use fail_closed_agent.Exec.World.{
  Action, mint_open, mint_reduce, submit, void, bind, unbind, World, record_order, step, run,
  minted_registry, bound_registry,
}

kinds_differ : reduce_only_kind ≡ open_kind → ⊥
kinds_differ h = absurd (cc h)

module _ (outside : Outside) (returns : OrderIntent → Bool) (P : PreflightInputs → Type 0)
    (Q : Position → Type 0) where
  -- `P` of the inputs of every mint of an opening token, and `Q` of the position of every mint of a
  -- reduce-only token
  unfoldable pub AllMints : List Action → Type 0
  AllMints [] = Unit
  AllMints (mint_open i ∷ rest) = P i × AllMints rest
  AllMints (mint_reduce (some p) intent ∷ rest) = Q p × AllMints rest
  AllMints (_ ∷ rest) = AllMints rest

  -- An order of this symbol, side and quantity brings a position with `Q` nearer to flat, and not
  -- through it.
  unfoldable pub Reduces : ℕ → Side → ℤ → Type 0
  Reduces symbol side qty =
      (p : Position) × Q p × (symbol ≡ p.symbol) × Decreases p.qty (filled p.qty side qty)

  -- An authorization is for a reduction of a position with `Q`, or a pass of inputs with `P` issued it.
  pub Issued : Authorization → Type 0
  Issued a =
      (a.kind ≡ reduce_only_kind) × Reduces a.symbol a.side a.qty
      ⊎ ((i : PreflightInputs) × (p : PreflightPass) × P i
          × (evaluate_preflight outside i ≡ passed p)
          × (a ≡ open_authorization outside i p))

  unfoldable pub AllIssued : Registry → Type 0
  AllIssued r = Every Issued r.authorizations

  -- An order reduces a position with `Q`, or is the very order that a pass of inputs with `P` licensed.
  pub IsTraced : OrderIntent → Type 0
  IsTraced o =
      Reduces o.symbol o.side o.qty
      ⊎ ((i : PreflightInputs) × (p : PreflightPass) × P i
          × (evaluate_preflight outside i ≡ passed p)
          × (o.symbol ≡ p.symbol)
          × (o.side ≡ p.side)
          × (o.qty ≡ p.qty)
          × (o.limit_price ≡ some (pos p.capped_limit)))

  unfoldable pub AllTraced : List OrderIntent → Type 0
  AllTraced [] = Unit
  AllTraced (o ∷ os) = IsTraced o × AllTraced os

  issue-AllIssued :
      (a : Authorization) (r : Registry) → Issued a → AllIssued r → AllIssued (issue a r).1
  unfolding AllIssued issue
  issue-AllIssued a r h s = insert-Every Issued r.next_nonce a r.authorizations h s

  revoke-AllIssued : (t : Token) (r : Registry) → AllIssued r → AllIssued (revoke t r)
  unfolding AllIssued revoke
  revoke-AllIssued (open_token k) r s = erase-Every Issued k r.authorizations s
  revoke-AllIssued (reduce_only_token k) r s = erase-Every Issued k r.authorizations s
  revoke-AllIssued other r s = s

  bound-Reduces :
      (a : Authorization) (o : OrderIntent)
      → a.symbol ≡ o.symbol
      → a.side ≡ o.side
      → a.qty ≡ o.qty
      → Reduces a.symbol a.side a.qty
      → Reduces o.symbol o.side o.qty
  bound-Reduces a o symbol side qty h =
      subst (λ s. Reduces s o.side o.qty) symbol
        (subst (λ d. Reduces a.symbol d o.qty) side (subst (λ n. Reduces a.symbol a.side n) qty h))

  bound-IsTraced : (a : Authorization) (o : OrderIntent) → Binds a o → Issued a → IsTraced o
  unfolding Issued IsTraced
  bound-IsTraced a o (symbol, side, qty, flag) (inl (_, h)) =
      inl (bound-Reduces a o symbol side qty h)
  bound-IsTraced a o (symbol, side, qty, inl (_, kind)) (inr (i, p, h, pass, e)) =
      absurd (kinds_differ (sym kind ∙ ap (λ x. x.kind) e))
  bound-IsTraced a o (symbol, side, qty, inr (_, kind, limit)) (inr (i, p, h, pass, e)) = inr (
    i,
    p,
    h,
    pass,
    sym symbol ∙ ap (λ x. x.symbol) e,
    sym side ∙ ap (λ x. x.side) e,
    sym qty ∙ ap (λ x. x.qty) e,
    sym limit ∙ ap (λ x. x.limit_price) e,
  )

  Issued-reduction :
      (p : Position) (o : OrderIntent)
      → Q p
      → reduce_defect p o ≡ none
      → Issued (reduce_authorization p o)
  unfolding Issued Reduces
  Issued-reduction p o q fine = inl (refl, (p, q, refl, reduce_defect-Decreases p o fine))

  Issued-pass :
      (i : PreflightInputs) (p : PreflightPass)
      → P i
      → evaluate_preflight outside i ≡ passed p
      → Issued (open_authorization outside i p)
  unfolding Issued
  Issued-pass i p h e = inr (i, p, h, e, refl)

  evaluated-AllIssued :
      (i : PreflightInputs) (v : Evaluated) (r : Registry)
      → P i
      → evaluate_preflight outside i ≡ v
      → AllIssued r
      → AllIssued (mint_evaluated outside i v r).1
  unfolding mint_evaluated
  evaluated-AllIssued i (passed p) r h e s =
      issue-AllIssued (open_authorization outside i p) r (Issued-pass i p h e) s
  evaluated-AllIssued i (refused x) r h e s = s
  evaluated-AllIssued i (fatal x) r h e s = s

  held-AllIssued :
      (d : Option Rejected) (p : Position) (intent : OrderIntent) (r : Registry)
      → Q p
      → reduce_defect p intent ≡ d
      → AllIssued r
      → AllIssued (minted_registry (mint_reduce_held d p intent r) r)
  unfolding minted_registry mint_reduce_held
  held-AllIssued (some d) p intent r q e s = s
  held-AllIssued none p intent r q e s =
      issue-AllIssued (reduce_authorization p intent) r (Issued-reduction p intent q e) s

  reduce-AllIssued :
      (p : Option Position) (intent : OrderIntent) (r : Registry)
      → AllMints (mint_reduce p intent ∷ [])
      → AllIssued r
      → AllIssued (minted_registry (mint_reduce_only_token p intent r) r)
  unfolding minted_registry mint_reduce_only_token AllMints
  reduce-AllIssued none intent r h s = s
  reduce-AllIssued (some p) intent r (q, _) s =
      held-AllIssued (reduce_defect p intent) p intent r q refl s

  bind-AllIssued :
      (bound : Bool) (r : Registry)
      → AllIssued r
      → AllIssued
          (bound_registry (if bound then none else some (record r { runtime_bound = true })) r)
  unfolding bound_registry AllIssued
  bind-AllIssued true r s = s
  bind-AllIssued false r s = s

  found-Issued :
      (t : Token) (r : Registry) (a : Authorization)
      → AllIssued r
      → authorization_of t r ≡ some a
      → Issued a
  unfolding AllIssued authorization_of
  found-Issued (open_token k) r a s e = lookup-Every Issued k a r.authorizations s e
  found-Issued (reduce_only_token k) r a s e = lookup-Every Issued k a r.authorizations s e
  found-Issued other r a s e = absurd (cc e)

  submit-AllIssued :
      (o : OrderIntent) (t : Token) (reading : Reading) (r : Registry) (orders : List OrderIntent)
      → AllIssued r
      → AllIssued (submit_order (record_order returns) o t reading r orders).1
  submit-AllIssued o t reading r orders s =
      subst AllIssued (sym (submit_order-registry (record_order returns) o t reading r orders))
        (elim (require_token-registry o t reading r) [
          | inl e ↦ subst AllIssued (sym e) s
          | inr e ↦ subst AllIssued (sym e) (revoke-AllIssued t r s)
        ])

  submit-AllTraced :
      (o : OrderIntent) (t : Token) (reading : Reading) (r : Registry) (orders : List OrderIntent)
      → AllIssued r
      → AllTraced orders
      → AllTraced (submit_order (record_order returns) o t reading r orders).2
  unfolding AllTraced
  submit-AllTraced o t reading r orders s h = elim (Option-cases (require_token o t reading r).0) [
    | inl e ↦
        let (a, found, binds, _) = (require_token_iff o t reading r).0 e in
        subst AllTraced (sym (submit_order-passed (record_order returns) o t reading r orders e).1)
          (bound-IsTraced a o binds (found-Issued t r a s found), h)
    | inr (x, e) ↦
        subst AllTraced (sym (submit_order-refused (record_order returns) o t reading r orders e).1)
          h
  ]

  -- Every authorization has its origin, and so has every order that the broker received.
  unfoldable pub IsAccounted : World → Type 0
  IsAccounted w = AllIssued w.registry × AllTraced w.orders

  step-IsAccounted :
      (a : Action) (w : World)
      → AllMints (a ∷ [])
      → IsAccounted w
      → IsAccounted (step outside returns a w)
  unfolding IsAccounted step AllMints mint_open_token void_token bind_runtime unbind_runtime
      bound_registry AllIssued
  step-IsAccounted (mint_open i) w (h, _) (s, t) =
      (evaluated-AllIssued i (evaluate_preflight outside i) w.registry h refl s, t)
  step-IsAccounted (mint_reduce p intent) w h (s, t) = (reduce-AllIssued p intent w.registry h s, t)
  step-IsAccounted (submit o token reading) w h (s, t) = (
    submit-AllIssued o token reading w.registry w.orders s,
    submit-AllTraced o token reading w.registry w.orders s t,
  )
  step-IsAccounted (void token) w h (s, t) = (revoke-AllIssued token w.registry s, t)
  step-IsAccounted bind w h (s, t) = (bind-AllIssued w.registry.runtime_bound w.registry s, t)
  step-IsAccounted unbind w h (s, t) = (s, t)

  mints_first :
      (a : Action) (rest : List Action) → AllMints (a ∷ rest) → AllMints (a ∷ []) × AllMints rest
  unfolding AllMints
  mints_first (mint_open i) rest (h, hs) = ((h, tt), hs)
  mints_first (mint_reduce none o) rest h = (tt, h)
  mints_first (mint_reduce (some p) o) rest (h, hs) = ((h, tt), hs)
  mints_first (submit o t reading) rest h = (tt, h)
  mints_first (void t) rest h = (tt, h)
  mints_first bind rest h = (tt, h)
  mints_first unbind rest h = (tt, h)

  -- Whatever is minted, submitted, voided and bound, in any order: if every opening mint is of inputs
  -- with `P` and every reducing one of a position with `Q`,
  -- then every order that the broker has received, however often it raised, brings a position with
  -- `Q` nearer to flat without flipping it, or is the very order (symbol, side, quantity and limit)
  -- of an evaluation of inputs with `P` that passed the ladder; given a world in which this holds of
  -- the tokens and of the orders so far.
  pub run-IsAccounted :
      (actions : List Action) (w : World)
      → AllMints actions
      → IsAccounted w
      → IsAccounted (run outside returns actions w)
  unfolding run
  run-IsAccounted [] w h s = s
  run-IsAccounted (a ∷ rest) w h s =
      let (first, others) = mints_first a rest h in
      run-IsAccounted rest (step outside returns a w) others (step-IsAccounted a w first s)
