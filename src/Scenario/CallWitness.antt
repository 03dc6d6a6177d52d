-- ===== src/Scenario/CallWitness.antt =====
-- How many adapters a swap calls (contracts/router/src/lib.rs), on the network of `Scenario.Network`.
use stellariq_contract.Prelude.{◌≡◌, refl, true, pos, ◌+ℤ◌, ◌-ℤ◌, ◌*ℤ◌, checked_sub, put, nat_eq}
use stellariq_contract.Soroban.{err}
use stellariq_contract.Interfaces.{swap_failed, checked_mul_div}
use stellariq_contract.TestAdapter
use stellariq_contract.Router
use stellariq_contract.Router.Tracking.{EndsAs}
use stellariq_contract.Router.Metering.{meter, unmetered, metered}
use stellariq_contract.Router.CallCount.{CallsFor}
use stellariq_contract.Router.CallBound.{swap_calls}
use stellariq_contract.Composition.{call_adapter}
use stellariq_contract.Scenario.Network.{
  Others, trader, token_a, token_c, pool, tokens, adapters, env, router_with,
}
use stellariq_contract.Scenario.TwoHops.{funded, two_hops}

swap_calls_example :
    EndsAs meter
      (CallsFor 2)
      (Router.swap tokens adapters env trader token_a token_c
        (pos 1000)
        (pos 1400)
        1000000
        two_hops
        (router_with funded))
      (Router.swap
        (unmetered tokens)
        (metered adapters)
        env
        trader
        token_a
        token_c
        (pos 1000)
        (pos 1400)
        1000000
        two_hops
        (meter (router_with funded) 0))
swap_calls_example =
    swap_calls tokens adapters env trader token_a token_c (pos 1000) (pos 1400) 1000000 two_hops
      (router_with funded)

-- Where the first venue rejects execution, the second is not called.
rejected_at_once :
    let rejecting : Router.State Others =
      router_with (record funded { fail = put pool true funded.fail }) in
    let (r, s) =
      Router.swap
        (unmetered tokens)
        (metered adapters)
        env
        trader
        token_a
        token_c
        (pos 1000)
        (pos 1400)
        1000000
        two_hops
        (meter rejecting 0) in
    (r ≡ err swap_failed) × (s.world.1 ≡ 1)
unfolding call_adapter ◌+ℤ◌ ◌-ℤ◌ ◌*ℤ◌ checked_sub Router.next_nonce Router.swap Router.check_terms
    Router.check_route Router.settlement Router.validate_path Router.validate_from
    Router.check_protocols_from Router.token_transfer Router.execute_from Router.execute_hop
    Router.deliver Router.adapter_swap checked_mul_div TestAdapter.swap
rejected_at_once = (refl, refl)
