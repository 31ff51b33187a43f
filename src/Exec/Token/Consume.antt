-- ===== src/Exec/Token/Consume.antt =====
-- Spending a token: `consume` of execution_preflight.py.
use fail_closed_agent.Base.{
  ℕ, ◌+◌, ◌≤◌, ◌≡◌, ◌≢◌, ◌↔◌, ◌⊎◌, inl, inr, refl, ap, sym, subst, ◌∙◌, Bool, true, Option, none,
  some, arith, Option-cases,
}
use fail_closed_agent.Base.Dict.{lookup-erase}
use fail_closed_agent.Exec.Token.{
  open_token_ttl_ms, Kind, open_kind, reduce_only_kind, Authorization, Token, open_token,
  reduce_only_token, other, nonce_of, Registry, Reading, forgery, ok, err, authorization_of, revoke,
  consume, consume_found, staleness, consume_as,
}

authorization_of-revoke : (t : Token) (r : Registry) → authorization_of t (revoke t r) ≡ none
unfolding authorization_of revoke
authorization_of-revoke (open_token n) r = ground (arith, lookup-erase n n r.authorizations)
authorization_of-revoke (reduce_only_token n) r = ground (arith, lookup-erase n n r.authorizations)
authorization_of-revoke other r = refl

authorization_of-revoke_ne :
    (t u : Token) (r : Registry)
    → nonce_of t ≢ nonce_of u
    → authorization_of u (revoke t r) ≡ authorization_of u r
unfolding authorization_of revoke
authorization_of-revoke_ne t other r h = refl
authorization_of-revoke_ne other u r h = refl
authorization_of-revoke_ne (open_token n) (open_token m) r h =
    ground (arith, lookup-erase n m r.authorizations)
authorization_of-revoke_ne (open_token n) (reduce_only_token m) r h =
    ground (arith, lookup-erase n m r.authorizations)
authorization_of-revoke_ne (reduce_only_token n) (open_token m) r h =
    ground (arith, lookup-erase n m r.authorizations)
authorization_of-revoke_ne (reduce_only_token n) (reduce_only_token m) r h =
    ground (arith, lookup-erase n m r.authorizations)

pub consume_registry :
    (t : Token) (reading : Reading) (r : Registry)
    → ((consume t reading r).1 ≡ r) × (authorization_of t r ≡ none)
      ⊎ ((consume t reading r).1 ≡ revoke t r)
unfolding consume
consume_registry t reading r = elim (Option-cases (authorization_of t r)) [
  | inl e ↦ inl (rw (e, consume_found) refl, e)
  | inr (a, e) ↦ inr (rw (e, consume_found) refl)
]

consume-none :
    (t : Token) (reading : Reading) (r : Registry)
    → authorization_of t r ≡ none
    → consume t reading r ≡ (err forgery, r)
unfolding consume
consume-none t reading r e = rw (e, consume_found) refl

consume_spent :
    (t : Token) (reading : Reading) (r : Registry)
    → authorization_of t (consume t reading r).1 ≡ none
consume_spent t reading r = elim (consume_registry t reading r) [
  | inl (same, gone) ↦ ap (authorization_of t) same ∙ gone
  | inr revoked ↦ ap (authorization_of t) revoked ∙ authorization_of-revoke t r
]

-- A token is spent by one `consume`, whatever came of it: it has no authorization left, a second
-- `consume` is a forgery, and no token with another nonce is touched.
pub consume_single_use :
    (t u : Token) (reading later : Reading) (r : Registry)
    → let r' = (consume t reading r).1 in
      (authorization_of t r' ≡ none)
      × (consume t later r' ≡ (err forgery, r'))
      × (nonce_of t ≢ nonce_of u → authorization_of u r' ≡ authorization_of u r)
consume_single_use t u reading later r = (
  consume_spent t reading r,
  consume-none t later (consume t reading r).1 (consume_spent t reading r),
  λ ne. elim (consume_registry t reading r) [
    | inl (same, _) ↦ ap (authorization_of u) same
    | inr revoked ↦ ap (authorization_of u) revoked ∙ authorization_of-revoke_ne t u r ne
  ],
)

-- When the re-checks of an opening authorization pass.
abbrev pub IsLive : Authorization → Bool → Reading → Type 0
IsLive a bound reading =
    (bound ≡ true)
    × ((t : ℕ) × (a.minted_at_ms ≡ some t) × (reading.now_ms ≤ t + open_token_ttl_ms))
    × (a.kill_generation ≡ some reading.generation)

staleness-none :
    (a : Authorization) (bound : Bool) (reading : Reading)
    → (staleness a bound reading ≡ none) ↔ IsLive a bound reading
unfolding staleness
staleness-none a bound reading =
    (live a.minted_at_ms a.kill_generation refl refl, λ h. ground arith)
  where
    live :
        (m g : Option ℕ)
        → a.minted_at_ms ≡ m
        → a.kill_generation ≡ g
        → staleness a bound reading ≡ none
        → IsLive a bound reading
    live none g e k h = absurd (ground arith)
    live (some t) none e k h = absurd (ground arith)
    live (some t) (some g) e k h = (ground arith, (t, e, ground arith), ground arith)

consume_as_iff :
    (k : Kind) (a b : Authorization) (bound : Bool) (reading : Reading)
    → (consume_as k a bound reading ≡ ok b)
      ↔ ((a ≡ b) × ((k ≡ reduce_only_kind) ⊎ IsLive a bound reading))
consume_as_iff reduce_only_kind a b bound reading = (λ h. (cc, inl refl), λ h. cc (h.0))
consume_as_iff open_kind a b bound reading = elim (Option-cases (staleness a bound reading)) [
  | inl fresh ↦
      (λ h. (ground arith, inr ((staleness-none a bound reading).0 fresh)), λ h. ground arith)
  | inr (reason, e) ↦
      (λ h. absurd (ground arith), λ h. absurd (ground (arith, (staleness-none a bound reading).1)))
]

-- `consume` returns an authorization exactly if the token has it and it is reduce-only, or the
-- runtime is bound, it is at most two seconds old and no kill has happened since.
pub consume_iff :
    (t : Token) (reading : Reading) (r : Registry) (a : Authorization)
    → ((consume t reading r).0 ≡ ok a) ↔ (
        (authorization_of t r ≡ some a)
        × ((a.kind ≡ reduce_only_kind) ⊎ IsLive a r.runtime_bound reading))
unfolding consume consume_found
consume_iff t reading r a = elim (Option-cases (authorization_of t r)) [
  | inl gone ↦ (λ h. absurd (ground arith), λ h. absurd (ground arith))
  | inr (b, found) ↦
      let (only_if, if_live) = consume_as_iff b.kind b a r.runtime_bound reading in
      (
        λ h.
            let (same, live) = only_if (ground arith) in
            (
              found ∙ ap some same,
              subst (λ c. (c.kind ≡ reduce_only_kind) ⊎ IsLive c r.runtime_bound reading) same live,
            ),
        λ h.
            let same : b ≡ a = ground arith in
            ground (
              arith,
              if_live (
                same,
                subst (λ c. (c.kind ≡ reduce_only_kind) ⊎ IsLive c r.runtime_bound reading)
                    (sym same) h.1,
              ),
            ),
      )
]

consume_found-registry :
    (o : Option Authorization) (t : Token) (reading : Reading) (r : Registry)
    → ((consume_found o t reading r).1 ≡ r) ⊎ ((consume_found o t reading r).1 ≡ revoke t r)
unfolding consume_found
consume_found-registry none t reading r = inl refl
consume_found-registry (some a) t reading r = inr refl

pub consume-registry :
    (t : Token) (reading : Reading) (r : Registry)
    → ((consume t reading r).1 ≡ r) ⊎ ((consume t reading r).1 ≡ revoke t r)
unfolding consume
consume-registry t reading r = consume_found-registry (authorization_of t r) t reading r
