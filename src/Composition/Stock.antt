-- ===== src/Composition/Stock.antt =====
-- What a route takes out of the test adapter (contracts/test-adapter/src/lib.rs), and what it asks of it.
use stellariq_contract.Prelude.{
  Bool, true, false, ◌≡◌, some, List, [], ◌∷◌, ◌==◌, ℤ, pos, ◌+ℤ◌, ◌-ℤ◌, ◌≤ℤ◌, ◌<ℤ◌, Map, arith,
  int_laws,
}
use stellariq_contract.Soroban.{Address, Symbol}
use stellariq_contract.Soroban.Sep41.{when}
use stellariq_contract.Interfaces.{SwapStep}
use stellariq_contract.TestAdapter
use stellariq_contract.Router.Spec.{Fills}
use stellariq_contract.Composition.Service.{IsOffered}

-- How much of token `u` the steps take out of the adapter.
abbrev pub demand : List SwapStep → List ℤ → Address → ℤ
demand [] amounts u = pos 0
demand (x ∷ path) [] u = pos 0
demand (x ∷ path) (a ∷ amounts) u = when (u == x.token_out) a +ℤ demand path amounts u

-- The adapter offers each step, for what the step before yields, at this amount.
abbrev pub AtPrices : {W : Type 0} → TestAdapter.State W → List SwapStep → ℤ → List ℤ → Type 0
AtPrices base [] amount amounts = Unit
AtPrices base (x ∷ path) amount [] = ⊥
AtPrices base (x ∷ path) amount (a ∷ amounts) =
    IsOffered base x amount a × AtPrices base path a amounts

-- Each step names the adapter, and trades listed tokens.
abbrev pub IsOpen : Map Symbol Address → Address → (Address → Type 0) → List SwapStep → Type 0
IsOpen protocols adapter Listed [] = Unit
IsOpen protocols adapter Listed (x ∷ path) =
    (protocols x.protocol ≡ some adapter)
    × Listed x.token_in
    × Listed x.token_out
    × IsOpen protocols adapter Listed path

add_not_negative : (b : Bool) (a d : ℤ) → pos 0 <ℤ a → pos 0 ≤ℤ d → pos 0 ≤ℤ when b a +ℤ d
add_not_negative true a d gain h = omega (int_laws, gain, h)
add_not_negative false a d gain h = omega (int_laws, h)

pub demand_not_negative :
    (path : List SwapStep) (amounts : List ℤ) (u : Address)
    → Fills path amounts
    → pos 0 ≤ℤ demand path amounts u
demand_not_negative [] amounts u fills = ground arith
demand_not_negative (x ∷ path) [] u fills = absurd fills
demand_not_negative (x ∷ path) (a ∷ amounts) u (gain, _, fills) =
    add_not_negative (u == x.token_out) a (demand path amounts u) gain
      (demand_not_negative path amounts u fills)

pub stock_for : (b : Bool) (a d f : ℤ) → b ≡ true → pos 0 ≤ℤ d → when b a +ℤ d ≤ℤ f → a ≤ℤ f
stock_for true a d f on h k = omega (int_laws, h, k)
stock_for false a d f on h k = absurd (ground arith)

pub stock_rest : (p d f f' : ℤ) → p +ℤ d ≤ℤ f → f -ℤ p ≤ℤ f' → d ≤ℤ f'
stock_rest p d f f' h k = omega (int_laws, h, k)
