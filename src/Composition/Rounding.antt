-- ===== src/Composition/Rounding.antt =====
-- Rounding on a route through the test adapter (contracts/router/src/lib.rs, `Router::swap`, and contracts/
-- test-adapter/src/lib.rs, `TestAdapter::swap`).
use native.Mathlib.Nat.{mul-le-mul_right}
use stellariq_contract.Prelude.{
  ℕ, zero, suc, ◌*◌, ◌≤◌, ◌≡◌, ◌≢◌, Option, none, some, List, [], ◌∷◌, ℤ, pos, negsuc, pos_part,
  Map, arith,
}
use stellariq_contract.Soroban.{Address, Env, Tokens, ok, unwrap_or}
use stellariq_contract.Soroban.Sep41.{IsLedger}
use stellariq_contract.Interfaces.{SwapStep, checked_mul_div, and_then}
use stellariq_contract.Interfaces.Rates.{mul_div_pos, rejected_out_of_range}
use stellariq_contract.TestAdapter
use stellariq_contract.Router
use stellariq_contract.Composition.Wiring.{tokens_below, test_adapters}
use stellariq_contract.Composition.Quote.{quote, swap_quoted}

-- The rate of a step's pool, which is one to one where none is set.
abbrev pub rate_at : Map Address (ℤ × ℤ) → SwapStep → ℤ × ℤ
rate_at rates x = unwrap_or (rates x.pool) (pos 1, pos 1)

-- The product of the rates' numerators over a route, and that of their denominators.
abbrev pub numerators : Map Address (ℤ × ℤ) → List SwapStep → ℕ
numerators rates [] = 1
numerators rates (x ∷ path) = pos_part (rate_at rates x).0 * numerators rates path

abbrev pub denominators : Map Address (ℤ × ℤ) → List SwapStep → ℕ
denominators rates [] = 1
denominators rates (x ∷ path) = pos_part (rate_at rates x).1 * denominators rates path

-- One hop: what it yields is not negative, and not more than the rate gives.
Priced : ℕ → ℤ → ℤ → Option ℤ → Type 0
Priced a num denom none = Unit
Priced a num denom (some (pos k)) = k * pos_part denom ≤ a * pos_part num
Priced a num denom (some (negsuc k)) = ⊥

checked_mul_div-Priced :
    (a : ℕ) (num denom : ℤ) → Priced a num denom (checked_mul_div (pos a) num denom)
unfolding Priced
checked_mul_div-Priced a (pos n) (pos (suc d)) = rw (mul_div_pos a n d) (ground arith)
checked_mul_div-Priced a (pos n) (pos zero) =
    rw (rejected_out_of_range (pos a) (pos n) (pos zero) (ground arith)) tt
checked_mul_div-Priced a (pos n) (negsuc d) =
    rw (rejected_out_of_range (pos a) (pos n) (negsuc d) (ground arith)) tt
checked_mul_div-Priced a (negsuc n) denom =
    rw (rejected_out_of_range (pos a) (negsuc n) denom (ground arith)) tt

-- A hop, and then the rest of the route.
compounded : (a b k n d p q : ℕ) → k * d ≤ a * n → b * q ≤ k * p → b * (d * q) ≤ a * (n * p)
compounded a b k n d p q h more = omega (arith, mul-le-mul_right p h, mul-le-mul_right d more)

-- What the rest of a route makes of any amount, it makes of what the first hop yields.
quote_onward :
    (rates : Map Address (ℤ × ℤ)) (x : SwapStep) (path : List SwapStep) (a b : ℕ) (o : Option ℤ)
    → ((k : ℕ)
        → quote rates path (pos k) ≡ some (pos b)
        → b * denominators rates path ≤ k * numerators rates path)
    → Priced a (rate_at rates x).0 (rate_at rates x).1 o
    → and_then o (λ out. quote rates path out) ≡ some (pos b)
    → b * denominators rates (x ∷ path) ≤ a * numerators rates (x ∷ path)
unfolding Priced
quote_onward rates x path a b none rest h e = absurd (ground arith)
quote_onward rates x path a b (some (negsuc k)) rest h e = absurd h
quote_onward rates x path a b (some (pos k)) rest h e =
    compounded a b k (pos_part (rate_at rates x).0) (pos_part (rate_at rates x).1)
      (numerators rates path) (denominators rates path) h (rest k e)

quote_never_gains :
    (rates : Map Address (ℤ × ℤ)) (path : List SwapStep) (a b : ℕ)
    → quote rates path (pos a) ≡ some (pos b)
    → b * denominators rates path ≤ a * numerators rates path
unfolding quote
quote_never_gains rates [] a b e = ground arith
quote_never_gains rates (x ∷ path) a b e =
    quote_onward rates x path a b (checked_mul_div (pos a) (rate_at rates x).0 (rate_at rates x).1)
      (λ k h. quote_never_gains rates path k b h)
      (checked_mul_div-Priced a (rate_at rates x).0 (rate_at rates x).1) e

module _ {W : Type 0} (tokens : Tokens W) (adapter_env : Env) (funds : W → Address → Address → ℤ)
    (ledger : IsLedger tokens funds) (env : Env) (trader : Address)
    (apart : env.contract ≢ adapter_env.contract)
    (trader_apart : trader ≢ adapter_env.contract) where
  -- Where the tokens keep to SEP-41, and the adapter is neither the router nor the trader, rounding never
  -- favours the trader: what a swap through the test adapter returns is at most what the rates of its route
  -- give without rounding, whatever the adapter reports. The amount out, times the rates' denominators, is at
  -- most the amount in, times their numerators.
  pub swap_never_gains :
      (token_in token_out : Address) (amount_in : ℕ) (amount_out_min : ℤ) (deadline : ℕ)
      (path : List SwapStep) (s t : Router.State (TestAdapter.State W)) (out : ℕ)
      → Router.swap
          (tokens_below tokens)
          (test_adapters tokens adapter_env)
          env
          trader
          token_in
          token_out
          (pos amount_in)
          amount_out_min
          deadline
          path
          s
        ≡ (ok (pos out), t)
      → out * denominators s.world.rate path ≤ amount_in * numerators s.world.rate path
  swap_never_gains token_in token_out amount_in amount_out_min deadline path s t out done =
      quote_never_gains s.world.rate path amount_in out
        (swap_quoted tokens adapter_env funds ledger env trader apart trader_apart token_in
          token_out (pos amount_in) amount_out_min deadline path s t (pos out) done).0
