-- ===== src/Scenario/ExactnessWitnesses.antt =====
-- The theorems on when `Router::swap` returns and fails, applied to runs on the network of
-- `Scenario.Network` (contracts/router/src/lib.rs).
use stellariq_contract.Prelude.{
  ◌≡◌, ◌↔◌, ◌⊎◌, refl, true, pos, ◌+ℤ◌, ◌-ℤ◌, ◌*ℤ◌, checked_sub, put, nat_eq,
}
use stellariq_contract.Soroban.{ok, err}
use stellariq_contract.Interfaces.{swap_failed, checked_mul_div}
use stellariq_contract.TestAdapter
use stellariq_contract.Router
use stellariq_contract.Router.Preflight.{HasTerms, HasRoute}
use stellariq_contract.Router.Outcomes.{IsRefused}
use stellariq_contract.Router.Breakdown.{IsDiagnosed}
use stellariq_contract.Router.Diagnosis.{swap-IsDiagnosed}
use stellariq_contract.Router.Exactness.{Succeeds, swap_exactly}
use stellariq_contract.Composition.{call_adapter}
use stellariq_contract.Scenario.Network.{
  Others, trader, token_a, token_c, pool2, tokens, adapters, env, router_with,
}
use stellariq_contract.Scenario.TwoHops.{funded, two_hops}
use stellariq_contract.Scenario.Facts.{after}

swap_exactly_example :
    (Router.swap tokens adapters env trader token_a token_c
        (pos 1000)
        (pos 1400)
        1000000
        two_hops
        (router_with funded)
      ≡ (ok (pos 1500), after))
    ↔ Succeeds tokens adapters env trader token_a token_c
        (pos 1000)
        (pos 1400)
        1000000
        two_hops
        (router_with funded)
        (pos 1500)
        after
swap_exactly_example =
    swap_exactly tokens adapters env trader token_a token_c (pos 1000) (pos 1400) 1000000 two_hops
      (router_with funded) (pos 1500) after

-- The venue of the second hop rejects execution.
abbrev rejecting : Router.State Others
rejecting = router_with (record funded { fail = put pool2 true funded.fail })

abbrev after_failure : Router.State Others
after_failure =
    (Router.swap tokens adapters env trader token_a token_c (pos 1000) (pos 1400) 1000000 two_hops
      rejecting).1

failing_run :
    Router.swap tokens adapters env trader token_a token_c
      (pos 1000)
      (pos 1400)
      1000000
      two_hops
      rejecting
    ≡ (err swap_failed, after_failure)
unfolding call_adapter ◌+ℤ◌ ◌-ℤ◌ ◌*ℤ◌ checked_sub Router.next_nonce Router.swap Router.check_terms
    Router.check_route Router.settlement Router.validate_path Router.validate_from
    Router.check_protocols_from Router.token_transfer Router.execute_from Router.execute_hop
    Router.deliver Router.adapter_swap checked_mul_div TestAdapter.swap
failing_run = refl

swap-IsDiagnosed_example :
    ((after_failure ≡ rejecting)
      × IsRefused tokens adapters env trader token_a token_c
          (pos 1000)
          (pos 1400)
          1000000
          two_hops
          rejecting
          swap_failed)
    ⊎ (HasTerms tokens adapters env trader (pos 1000) (pos 1400) 1000000 two_hops rejecting
        × HasRoute tokens adapters env trader token_a token_c (pos 1000) two_hops rejecting
        × IsDiagnosed tokens adapters env trader token_a token_c
            (pos 1000)
            (pos 1400)
            two_hops
            rejecting
            swap_failed)
swap-IsDiagnosed_example =
    swap-IsDiagnosed tokens adapters env trader token_a token_c (pos 1000) (pos 1400) 1000000
      two_hops rejecting after_failure swap_failed failing_run
