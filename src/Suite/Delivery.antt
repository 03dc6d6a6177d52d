-- ===== src/Suite/Delivery.antt =====
-- contracts/router/src/test_aggregation.rs: adapters that report another amount than they deliver.
use stellariq_contract.Prelude.{ℕ, ◌≡◌, refl, Option, some, pos, nat_eq, string_eq}
use stellariq_contract.Soroban.{err}
use stellariq_contract.Interfaces.{swap_failed}
use stellariq_contract.TestAdapter
use stellariq_contract.Fixture.{Network}
use stellariq_contract.Scenario.{Ledger}
use stellariq_contract.Suite.Bench.{
  f, one_hop, buy, ◌▹◌, start, fund, call, ask, attempt, after_attempt, call_on_adapter, two_hops,
  convert, stock, swap_by, holds,
}

abbrev set_misreport : ℕ → Network Ledger → Option (Network Ledger)
set_misreport reported =
    call_on_adapter f (λ env. TestAdapter.set_misreport env f.admin f.pool (pos reported))

abbrev InflatedReportFailsClosed : Type 0
InflatedReportFailsClosed =
    let ready = start ▹ fund ▹ set_misreport 5000 in
    let failing = buy 1000 900 (one_hop (pos 900)) in
    let reverted = ready ▹ after_attempt f failing in
    ((ready ▹ attempt f failing) ≡ some (err swap_failed))
    × ((reverted ▹ holds f.token_a f.trader) ≡ some (pos 10000))
    × ((reverted ▹ holds f.token_b f.trader) ≡ some (pos 0))

abbrev DeflatedReportSettlesOnVerifiedDelivery : Type 0
DeflatedReportSettlesOnVerifiedDelivery =
    let ready = start ▹ fund ▹ set_misreport 100 in
    let understated = buy 1000 900 (one_hop (pos 900)) in
    ((ready ▹ ask f understated) ≡ some (pos 1000))
    × ((ready ▹ call f understated ▹ holds f.token_b f.trader) ≡ some (pos 1000))

abbrev InflatedReportMidRouteFailsAtomically : Type 0
InflatedReportMidRouteFailsAtomically =
    let ready = start ▹ stock ▹ set_misreport 50000 in
    let failing = convert 1000 900 (two_hops 900 900) in
    let reverted = ready ▹ after_attempt f failing in
    ((ready ▹ attempt f failing) ≡ some (err swap_failed))
    × ((reverted ▹ holds f.token_a f.trader) ≡ some (pos 10000))
    × ((reverted ▹ holds f.token_c f.trader) ≡ some (pos 0))

delivery_tests_pass :
    InflatedReportFailsClosed × DeflatedReportSettlesOnVerifiedDelivery
    × InflatedReportMidRouteFailsAtomically
unfolding start swap_by TestAdapter.set_misreport
delivery_tests_pass = ((refl, refl, refl), (refl, refl), (refl, refl, refl))
