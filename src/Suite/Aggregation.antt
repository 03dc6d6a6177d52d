-- ===== src/Suite/Aggregation.antt =====
-- contracts/router/src/test_aggregation.rs: routes of several hops, and that they settle whole or not
-- at all.
use stellariq_contract.Prelude.{◌≡◌, refl, true, some, map, List, [], ◌∷◌, pos, nat_eq, string_eq}
use stellariq_contract.Soroban.{err}
use stellariq_contract.Interfaces.{SwapStep, insufficient_output, swap_failed}
use stellariq_contract.TestAdapter
use stellariq_contract.Fixture.{step_on_pool}
use stellariq_contract.Suite.Bench.{
  f, buy, ◌▹◌, start, give, call, ask, attempt, after_attempt, call_on_adapter, two_hops, convert,
  set_rate, stock, swap, swap_by, holds,
}

abbrev TwoHopSwapChainsAmountsAcrossPools : Type 0
TwoHopSwapChainsAmountsAcrossPools =
    let ready = start ▹ set_rate f.pool 3 2 ▹ stock in
    let settled = ready ▹ call f (convert 1000 1400 (two_hops 1400 1400)) in
    ((ready ▹ ask f (convert 1000 1400 (two_hops 1400 1400))) ≡ some (pos 1500))
    × ((settled ▹ holds f.token_a f.trader) ≡ some (pos 9000))
    × ((settled ▹ holds f.token_b f.trader) ≡ some (pos 0))
    × ((settled ▹ holds f.token_c f.trader) ≡ some (pos 1500))
    × ((settled ▹ holds f.token_b f.router_id) ≡ some (pos 0))
    × ((settled ▹ holds f.token_c f.router_id) ≡ some (pos 0))

abbrev ThreeHopTruncationIsDeterministic : Type 0
ThreeHopTruncationIsDeterministic =
    let ready = start ▹ set_rate f.pool 1 3 ▹ set_rate f.pool2 1 3 ▹ stock in
    let path : List SwapStep =
      step_on_pool f.pool f.token_a f.token_b (pos 300)
      ∷ step_on_pool f.pool2 f.token_b f.token_c (pos 100)
      ∷ step_on_pool f.pool f.token_c f.token_b (pos 30)
      ∷ [] in
    ((ready ▹ ask f (buy 1000 30 path)) ≡ some (pos 37))
    × ((ready ▹ call f (buy 1000 30 path) ▹ holds f.token_b f.trader) ≡ some (pos 37))

abbrev MaxHopsBoundarySucceeds : Type 0
MaxHopsBoundarySucceeds =
    let ready = start ▹ give f.token_a f.trader 10000 ▹ give f.token_a f.adapter_id 50000 in
    let path : List SwapStep =
      map (λ pool. step_on_pool pool f.token_a f.token_a (pos 0))
        (f.pool ∷ f.pool2 ∷ f.pool ∷ f.pool2 ∷ f.pool ∷ []) in
    let looping = swap f.token_a f.token_a (pos 1000) (pos 1000) path in
    ((ready ▹ ask f looping) ≡ some (pos 1000))
    × ((ready ▹ call f looping ▹ holds f.token_a f.trader) ≡ some (pos 10000))

abbrev FailedIntermediateHopRevertsAtomically : Type 0
FailedIntermediateHopRevertsAtomically =
    let ready =
      start ▹ stock ▹ call_on_adapter f (λ env. TestAdapter.set_fail env f.admin f.pool2 true) in
    let failing = convert 1000 900 (two_hops 900 900) in
    let reverted = ready ▹ after_attempt f failing in
    ((ready ▹ attempt f failing) ≡ some (err swap_failed))
    × ((reverted ▹ holds f.token_a f.trader) ≡ some (pos 10000))
    × ((reverted ▹ holds f.token_b f.trader) ≡ some (pos 0))
    × ((reverted ▹ holds f.token_c f.trader) ≡ some (pos 0))
    × ((reverted ▹ holds f.token_a f.router_id) ≡ some (pos 0))
    × ((reverted ▹ holds f.token_b f.router_id) ≡ some (pos 0))

abbrev MidRouteSlippageRevertsAtomically : Type 0
MidRouteSlippageRevertsAtomically =
    let ready = start ▹ stock ▹ set_rate f.pool2 1 2 in
    let failing = convert 1000 900 (two_hops 900 1) in
    let reverted = ready ▹ after_attempt f failing in
    ((ready ▹ attempt f failing) ≡ some (err insufficient_output))
    × ((reverted ▹ holds f.token_a f.trader) ≡ some (pos 10000))
    × ((reverted ▹ holds f.token_c f.trader) ≡ some (pos 0))

abbrev HopMinViolationMidRouteReverts : Type 0
HopMinViolationMidRouteReverts =
    let failing = convert 1000 900 (two_hops 900 1001) in
    ((start ▹ stock ▹ attempt f failing) ≡ some (err insufficient_output))
    × ((start ▹ stock ▹ after_attempt f failing ▹ holds f.token_a f.trader) ≡ some (pos 10000))

abbrev IlliquidIntermediateVenueFailsSafely : Type 0
IlliquidIntermediateVenueFailsSafely =
    let ready = start ▹ give f.token_a f.trader 10000 ▹ give f.token_b f.adapter_id 20000 in
    let failing = convert 1000 900 (two_hops 900 900) in
    let reverted = ready ▹ after_attempt f failing in
    ((ready ▹ attempt f failing) ≡ some (err swap_failed))
    × ((reverted ▹ holds f.token_a f.trader) ≡ some (pos 10000))
    × ((reverted ▹ holds f.token_c f.trader) ≡ some (pos 0))

abbrev ExecutionDoesNotDependOnOffchainState : Type 0
ExecutionDoesNotDependOnOffchainState =
    let ready =
      start
      ▹ set_rate f.pool 3 2
      ▹ give f.token_a f.trader 10000
      ▹ give f.token_b f.adapter_id 40000 in
    let run = buy 1000 1400 (step_on_pool f.pool f.token_a f.token_b (pos 1400) ∷ []) in
    ((ready ▹ ask f run) ≡ some (pos 1500))
    × ((ready ▹ call f run ▹ ask f run) ≡ some (pos 1500))
    × ((ready ▹ call f run ▹ call f run ▹ holds f.token_b f.trader) ≡ some (pos 3000))

route_tests_pass :
    TwoHopSwapChainsAmountsAcrossPools × ThreeHopTruncationIsDeterministic × MaxHopsBoundarySucceeds
    × ExecutionDoesNotDependOnOffchainState
unfolding start swap_by TestAdapter.set_rate
route_tests_pass =
    ((refl, refl, refl, refl, refl, refl), (refl, refl), (refl, refl), (refl, refl, refl))

revert_tests_pass :
    FailedIntermediateHopRevertsAtomically × MidRouteSlippageRevertsAtomically
    × HopMinViolationMidRouteReverts × IlliquidIntermediateVenueFailsSafely
unfolding start swap_by TestAdapter.set_rate TestAdapter.set_fail
revert_tests_pass =
    ((refl, refl, refl, refl, refl, refl), (refl, refl, refl), (refl, refl), (refl, refl, refl))
