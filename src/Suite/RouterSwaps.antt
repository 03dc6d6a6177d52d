-- ===== src/Suite/RouterSwaps.antt =====
-- contracts/router/src/test.rs: single hops that settle, and hops that fail.
use stellariq_contract.Prelude.{◌≡◌, refl, true, some, pos, nat_eq, string_eq}
use stellariq_contract.Soroban.{err}
use stellariq_contract.Interfaces.{AdapterError, insufficient_output, swap_failed, invalid_rate}
use stellariq_contract.TestAdapter
use stellariq_contract.Fixture.{deadline}
use stellariq_contract.Suite.Bench.{
  f, one_hop, buy, ◌▹◌, start, fund, call, ask, attempt, call_on_adapter, attempt_on_adapter,
  swap_by, holds, at_time,
}

abbrev SingleHopSwapSucceedsAndSettles : Type 0
SingleHopSwapSucceedsAndSettles =
    let funded = start ▹ fund in
    let settled = funded ▹ call f (buy 1000 900 (one_hop (pos 900))) in
    ((funded ▹ ask f (buy 1000 900 (one_hop (pos 900)))) ≡ some (pos 1000))
    × ((settled ▹ holds f.token_a f.trader) ≡ some (pos 9000))
    × ((settled ▹ holds f.token_b f.trader) ≡ some (pos 1000))
    × ((settled ▹ holds f.token_a f.router_id) ≡ some (pos 0))
    × ((settled ▹ holds f.token_b f.router_id) ≡ some (pos 0))
    × ((settled ▹ holds f.token_a f.adapter_id) ≡ some (pos 1000))
    × ((settled ▹ holds f.token_b f.adapter_id) ≡ some (pos 9000))

abbrev DeadlineEqualToNowIsValid : Type 0
DeadlineEqualToNowIsValid =
    (start ▹ fund ▹ ask (at_time deadline) (buy 1000 900 (one_hop (pos 900)))) ≡ some (pos 1000)

abbrev GlobalMinOutViolationFails : Type 0
GlobalMinOutViolationFails =
    (start
      ▹ fund
      ▹ call_on_adapter f (λ env. TestAdapter.set_rate env f.admin f.pool (pos 1) (pos 2))
      ▹ attempt f (buy 1000 900 (one_hop (pos 1))))
    ≡ some (err insufficient_output)

abbrev PerHopMinViolationFails : Type 0
PerHopMinViolationFails =
    (start ▹ fund ▹ attempt f (buy 1000 900 (one_hop (pos 1001)))) ≡ some (err insufficient_output)

abbrev AdapterFaultMapsToSwapFailed : Type 0
AdapterFaultMapsToSwapFailed =
    (start
      ▹ fund
      ▹ call_on_adapter f (λ env. TestAdapter.set_fail env f.admin f.pool true)
      ▹ attempt f (buy 1000 900 (one_hop (pos 1))))
    ≡ some (err swap_failed)

abbrev AdapterZeroRateMapsToSwapFailed : Type 0
AdapterZeroRateMapsToSwapFailed =
    (start
      ▹ fund
      ▹ call_on_adapter f (λ env. TestAdapter.set_rate env f.admin f.pool (pos 0) (pos 1))
      ▹ attempt f (buy 1000 900 (one_hop (pos 1))))
    ≡ some (err swap_failed)

abbrev AdapterRejectsBadRatesAndDoubleInit : Type 0
AdapterRejectsBadRatesAndDoubleInit =
    ((start ▹ attempt_on_adapter f (λ env. TestAdapter.set_rate env f.admin f.pool (pos 1) (pos 0)))
      ≡ some (err invalid_rate))
    × ((start ▹ attempt_on_adapter f (λ env. TestAdapter.initialize f.admin))
        ≡ some (err AdapterError.already_initialized))

single_hop_tests_pass : SingleHopSwapSucceedsAndSettles × DeadlineEqualToNowIsValid
unfolding start swap_by
single_hop_tests_pass = ((refl, refl, refl, refl, refl, refl, refl), refl)

failure_tests_pass :
    GlobalMinOutViolationFails × PerHopMinViolationFails × AdapterFaultMapsToSwapFailed
    × AdapterZeroRateMapsToSwapFailed × AdapterRejectsBadRatesAndDoubleInit
unfolding start swap_by TestAdapter.initialize TestAdapter.set_rate TestAdapter.set_fail
failure_tests_pass = (refl, refl, refl, refl, (refl, refl))
