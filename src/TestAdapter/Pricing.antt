-- ===== src/TestAdapter/Pricing.antt =====
-- `TestAdapter::swap` (contracts/test-adapter/src/lib.rs): how it ends, what it delivers and what it
-- reports.
use stellariq_contract.Prelude.{
  ◌≡◌, ◌≢◌, ◌⊎◌, subst, true, Option, none, some, ℤ, pos, ◌≤ℤ◌, ◌<ℤ◌, arith,
}
use stellariq_contract.Soroban.{Env, Tokens, Outcome, ok, err, trap, unwrap_or}
use stellariq_contract.Interfaces.{AdapterError, failed, AdapterCall, checked_mul_div}
use stellariq_contract.Interfaces.Rates.{IsFloor, Exact, checked_mul_div-Exact}
use stellariq_contract.TestAdapter.Defs.{State, swap}

module _ {W : Type 0} (tokens : Tokens W) (env : Env) (call : AdapterCall) (s : State W) where
  -- The pool's rate; without one it is 1:1.
  abbrev pub rate_of : ℤ × ℤ
  rate_of = unwrap_or (s.rate call.pool) (pos 1, pos 1)

  -- What `swap` asks of the adapter and of the call before it looks at its balance.
  pub record IsServed : Type 0 where
    pub initialized : s.admin ≢ none
    pub positive : pos 0 <ℤ call.amount_in
    pub working : s.fail call.pool ≢ some true

  -- The adapter's balance of the input, if the token tells it, covers the input.
  abbrev pub IsForwarded : Option ℤ → Type 0
  IsForwarded none = ⊥
  IsForwarded (some held) = call.amount_in ≤ℤ held

  abbrev pub Delivered : ℤ → ℤ → State W → Type 0
  Delivered out reported t =
      (tokens.transfer s.world env.contract call.token_out env.contract call.recipient out
        ≡ some t.world)
      × (t ≡ record s { world = t.world })
      × (reported ≡ unwrap_or (s.misreport call.pool) out)

  abbrev pub IsShort : Option ℤ → Type 0
  IsShort none = ⊥
  IsShort (some held) = held <ℤ call.amount_in

  abbrev pub held_input : Option ℤ
  held_input = tokens.balance s.world call.token_in env.contract

  -- Why `swap` fails, by what `checked_mul_div` gives.
  abbrev pub IsFailed : Option ℤ → Type 0
  IsFailed o =
      (call.amount_in ≤ℤ pos 0)
      ⊎ (s.fail call.pool ≡ some true)
      ⊎ IsShort held_input
      ⊎ ((held_input ≢ none) × (o ≡ none))

  abbrev pub IsStuck : Option ℤ → Type 0
  IsStuck none = ⊥
  IsStuck (some out) =
      tokens.transfer s.world env.contract call.token_out env.contract call.recipient out ≡ none

  -- How `swap` ends, by what `checked_mul_div` gives for the pool's rate.
  abbrev pub SwapPrices : Option ℤ → Outcome AdapterError ℤ × State W → Type 0
  SwapPrices none (ok reported, t) = ⊥
  SwapPrices (some out) (ok reported, t) =
      IsServed × IsForwarded held_input × Delivered out reported t
  SwapPrices o (err e, t) =
      (t ≡ s)
      × (((e ≡ AdapterError.not_initialized) × (s.admin ≡ none))
          ⊎ ((e ≡ failed) × (s.admin ≢ none) × IsFailed o))
  SwapPrices o (trap, t) =
      (t ≡ s) × IsServed × ((held_input ≡ none) ⊎ (IsForwarded held_input × IsStuck o))

  pub swap_ends :
      SwapPrices (checked_mul_div call.amount_in rate_of.0 rate_of.1) (swap tokens env call s)
  unfolding swap
  swap_ends = ground arith

  -- Where the adapter is set up, the input is positive and held, the pool is not set to fail, the price
  -- exists and the token contract lets the adapter send it to the recipient, `swap` does just that and
  -- reports the price, or the value set for misreporting; and only there does it report a value. Where it
  -- fails nothing has changed, and it is not set up (`NotInitialized`), or the input is not positive or not
  -- held, the pool is set to fail, or the price does not exist (`Failed`). It traps, and changes nothing,
  -- only where it is served, but the token does not tell its balance or refuses to send the price.
  pub swap_prices :
      ((held out : ℤ) (w : W)
        → IsServed
        → held_input ≡ some held
        → call.amount_in ≤ℤ held
        → checked_mul_div call.amount_in rate_of.0 rate_of.1 ≡ some out
        → tokens.transfer s.world env.contract call.token_out env.contract call.recipient out
          ≡ some w
        → swap tokens env call s
          ≡ (ok (unwrap_or (s.misreport call.pool) out), record s { world = w }))
      × SwapPrices (checked_mul_div call.amount_in rate_of.0 rate_of.1) (swap tokens env call s)
  unfolding swap
  swap_prices = (λ held out w served told enough price moved. ground arith, swap_ends)

  priced :
      (o : Option ℤ) (reported : ℤ) (t : State W)
      → Exact call.amount_in rate_of.0 rate_of.1 o
      → SwapPrices o (ok reported, t)
      → (out : ℤ) × IsFloor call.amount_in rate_of.0 rate_of.1 out × Delivered out reported t
  priced none reported t exact v = absurd v
  priced (some out) reported t exact v = (out, exact.3, v.2)

  -- What a successful `swap` delivers is the floor of `amount_in * num / denom`.
  pub swap_delivers-IsFloor :
      (reported : ℤ) (t : State W)
      → swap tokens env call s ≡ (ok reported, t)
      → (out : ℤ) × IsFloor call.amount_in rate_of.0 rate_of.1 out × Delivered out reported t
  swap_delivers-IsFloor reported t h =
      let o = checked_mul_div call.amount_in rate_of.0 rate_of.1 in
      priced o reported t (checked_mul_div-Exact call.amount_in rate_of.0 rate_of.1)
        (subst (SwapPrices o) h swap_ends)
