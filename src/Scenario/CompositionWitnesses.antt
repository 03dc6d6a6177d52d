-- ===== src/Scenario/CompositionWitnesses.antt =====
-- The theorems on the router with the test adapter, applied to runs on the network of
-- `Scenario.Network` (contracts/router/src/lib.rs, contracts/test-adapter/src/lib.rs).
use stellariq_contract.Prelude.{
  ◌≡◌, ◌≤◌, ◌*◌, ◌≤ℤ◌, refl, some, [], ◌∷◌, pos, ◌+ℤ◌, ◌*ℤ◌, checked_mul, checked_div, nat_eq,
  string_eq, arith,
}
use stellariq_contract.Soroban.{Address, ok}
use stellariq_contract.Interfaces.{checked_mul_div}
use stellariq_contract.Router
use stellariq_contract.Router.Preflight.{HasTerms, HasRoute}
use stellariq_contract.Router.Settlement.{settled}
use stellariq_contract.Composition.Quote.{quote, swap_quoted}
use stellariq_contract.Composition.Rounding.{numerators, denominators, swap_never_gains}
use stellariq_contract.Composition.Fulfilment.{swap_fulfils}
use stellariq_contract.Composition.Stock.{demand}
use stellariq_contract.Scenario.Network.{
  Others, Ledger, trader, router_id, token_a, token_c, plain_tokens, adapter_env, tokens, adapters,
  env, router_with, credit, debit, adapter_id,
}
use stellariq_contract.Scenario.TwoHops.{funded, two_hops}
use stellariq_contract.Scenario.Facts.{
  held, Listed, plain_tokens-IsLedger, plain_tokens-IsPaying, after, two_hops_run,
}

abbrev ready : Router.State Others
ready = router_with funded

swap_quoted_example :
    (quote funded.rate two_hops (pos 1000) ≡ some (pos 1500)) × (after.world.rate ≡ funded.rate)
swap_quoted_example =
    swap_quoted plain_tokens adapter_env held plain_tokens-IsLedger env trader (ground arith)
      (ground arith) token_a token_c (pos 1000) (pos 1400) 1000000 two_hops ready after (pos 1500)
      two_hops_run

swap_never_gains_example :
    1500 * denominators funded.rate two_hops ≤ 1000 * numerators funded.rate two_hops
swap_never_gains_example =
    swap_never_gains plain_tokens adapter_env held plain_tokens-IsLedger env trader (ground arith)
      (ground arith) token_a token_c 1000 (pos 1400) 1000000 two_hops ready after 1500 two_hops_run

abbrev pulled : Ledger
pulled = credit token_a router_id 1000 (debit token_a trader 1000 funded.world)

pull_runs :
    plain_tokens.transfer funded.world router_id token_a trader router_id (pos 1000) ≡ some pulled
pull_runs = refl

two_hops-HasTerms : HasTerms tokens adapters env trader (pos 1000) (pos 1400) 1000000 two_hops ready
two_hops-HasTerms = record {
  initialized = ground arith;
  live = refl;
  authorized = refl;
  amount_positive = ground arith;
  minimum_positive = ground arith;
  in_time = ground arith;
  nonempty = ground arith;
  bounded = ground arith;
}

two_hops-HasRoute : HasRoute tokens adapters env trader token_a token_c (pos 1000) two_hops ready
two_hops-HasRoute = record {
  route = (refl, ground arith, (refl, ground arith, refl));
  registered = (ground arith, (ground arith, tt));
  funded = ground arith;
}

two_hops_price : checked_mul_div (pos 1000) (pos 3) (pos 2) ≡ some (pos 1500)
unfolding checked_mul_div checked_mul checked_div ◌*ℤ◌
two_hops_price = refl

second_price : checked_mul_div (pos 1500) (pos 1) (pos 1) ≡ some (pos 1500)
unfolding checked_mul_div checked_mul checked_div ◌*ℤ◌
second_price = refl

stocked :
    (u : Address) → demand two_hops (pos 1500 ∷ pos 1500 ∷ []) u ≤ℤ held funded.world u adapter_id
unfolding ◌+ℤ◌
stocked u = ground arith

swap_fulfils_example :
    (m : Ledger) × (Router.swap tokens adapters env trader token_a token_c
        (pos 1000)
        (pos 1400)
        1000000
        two_hops
        ready
      ≡ (
        ok (pos 1500),
        settled tokens adapters env trader token_a token_c
            (pos 1000)
            (pos 1400)
            two_hops
            ready
            (pos 1500 ∷ pos 1500 ∷ [])
            (record funded { world = m }),
      ))
swap_fulfils_example =
    swap_fulfils plain_tokens adapter_env held Listed plain_tokens-IsLedger plain_tokens-IsPaying
      env trader (ground arith) (ground arith) token_a token_c (pos 1000) (pos 1400) 1000000
      two_hops (pos 1500 ∷ pos 1500 ∷ []) ready pulled (ground arith) two_hops-HasTerms
      two_hops-HasRoute pull_runs (ground arith) (ground arith)
      (refl, refl, refl, (refl, refl, refl, tt))
      (
        record { works = ground arith; honest = refl; price = two_hops_price },
        (record { works = ground arith; honest = refl; price = second_price }, tt),
      )
      (ground arith, ground arith, (ground arith, ground arith, tt)) stocked (ground arith)
