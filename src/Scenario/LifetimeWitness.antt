-- ===== src/Scenario/LifetimeWitness.antt =====
-- Two swaps, with a change of the adapter's price between them, on the network of `Scenario.Network`
-- (contracts/router/src/lib.rs, contracts/test-adapter/src/lib.rs).
use stellariq_contract.Prelude.{◌≡◌, refl, pos, ◌==◌, arith, nat_eq}
use stellariq_contract.Soroban.{Address, Env}
use stellariq_contract.TestAdapter
use stellariq_contract.Router
use stellariq_contract.Router.Entries.{Entry, swap_entry, perform}
use stellariq_contract.Router.Governance.{perform-code}
use stellariq_contract.Router.Lifetime.{Life, begun, invoked, outside, lifetime_custody}
use stellariq_contract.Scenario.Network.{
  Others, admin, trader, router_id, token_a, token_b, token_c, pool, tokens, adapters, adapter_env,
  env, router_with,
}
use stellariq_contract.Scenario.TwoHops.{funded, two_hops}
use stellariq_contract.Scenario.Facts.{funds, tokens-IsLedger, adapters-IsConfined, router-IsApart}

-- The trader signs.
abbrev signed_env : Env
signed_env = record env { signed = λ a. a == trader }

abbrev trade : Entry
trade = swap_entry trader token_a token_c (pos 1000) (pos 1400) 1000000 two_hops

abbrev once : Router.State Others
once = perform tokens adapters signed_env trade (router_with funded)

-- The adapter's admin sets a price.
abbrev repriced : Others
repriced =
    (TestAdapter.set_rate (record adapter_env { signed = λ a. a == admin }) admin pool (pos 2)
      (pos 1) once.world).1

abbrev twice : Router.State Others
twice = perform tokens adapters signed_env trade (record once { world = repriced })

price_moves_nothing : (u : Address) → funds repriced u router_id ≡ funds once.world u router_id
unfolding TestAdapter.set_rate
price_moves_nothing u = ground arith

once_code : once.code ≡ 0
once_code = perform-code tokens adapters signed_env trade (router_with funded) tt

two_swaps : Life tokens adapters funds router_id (router_with funded) twice
two_swaps = invoked signed_env trade refl refl tt once_code (
    outside repriced (λ u. price_moves_nothing u)
      (invoked signed_env trade refl refl tt refl begun))

lifetime_custody_example :
    funds (router_with funded).world token_b router_id ≡ funds twice.world token_b router_id
lifetime_custody_example =
    lifetime_custody tokens adapters funds router_id tokens-IsLedger (adapters-IsConfined router_id)
      router-IsApart two_swaps token_b
