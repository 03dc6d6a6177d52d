-- ===== src/Suite/Events.antt =====
-- contracts/router/src/test_events.rs: the events of one call, in order.
use stellariq_contract.Prelude.{
  ℕ, zero, suc, length, Option, ◌≡◌, refl, true, Option, some, List, [], ◌∷◌, pos, nat_eq,
  string_eq,
}
use stellariq_contract.Soroban.{Address, Env, Contract, Symbol, invoke, err}
use stellariq_contract.Interfaces.{
  Event, swap_executed, hop_executed, initialized, protocol_set, protocol_removed, admin_changed,
  pause_changed, event_schema_version, RouterError, insufficient_output,
}
use stellariq_contract.Router
use stellariq_contract.TestAdapter
use stellariq_contract.Fixture.{Network}
use stellariq_contract.Scenario.{Ledger}
use stellariq_contract.Suite.Bench.{
  f, another, one_hop, buy, ◌▹◌, start, fund, call, ask, attempt, two_hops, convert, set_rate,
  stock, swap_by, registered,
}

module _ {ℓ} {A : Type ℓ} where
  abbrev drop : ℕ → List A → List A
  drop zero xs = xs
  drop (suc n) [] = []
  drop (suc n) (x ∷ xs) = drop n xs

-- `router_events`: the test environment shows the events of the last call.
abbrev router_events :
    {A : Type 0}
    → (Env → Contract (Network Ledger) RouterError A)
    → Network Ledger
    → Option (List Event)
router_events entry s = some (drop (length s.events) (invoke (entry f.env) s).1.events)

abbrev expected_swap : ℕ → ℕ → ℕ → List Symbol → Event
expected_swap execution_id amount_in amount_out protocols = swap_executed (record {
  trader = f.trader;
  token_in = f.token_a;
  token_out = f.token_b;
  amount_in = pos amount_in;
  amount_out = pos amount_out;
  protocols = protocols;
  execution_id = execution_id;
  ledger = f.env.sequence;
  version = event_schema_version;
})

abbrev expected_hop : ℕ → ℕ → Address → Address → Address → ℕ → ℕ → Event
expected_hop execution_id hop_index pool token_in token_out amount_in amount_out =
    hop_executed (record {
      execution_id = execution_id;
      trader = f.trader;
      hop_index = hop_index;
      protocol = "test";
      pool = pool;
      token_in = token_in;
      token_out = token_out;
      amount_in = pos amount_in;
      amount_out = pos amount_out;
      version = event_schema_version;
    })

abbrev SwapEmitsJoinableHopAndSummary : Type 0
SwapEmitsJoinableHopAndSummary =
    ((start ▹ fund ▹ ask f (buy 1000 900 (one_hop (pos 900)))) ≡ some (pos 1000))
    × ((start ▹ fund ▹ router_events (buy 1000 900 (one_hop (pos 900))))
        ≡ some (
            expected_hop 1 0 f.pool f.token_a f.token_b 1000 1000
            ∷ expected_swap 1 1000 1000 ("test" ∷ [])
            ∷ []))

abbrev TwoHopSwapEmitsOrderedHopsThenSummary : Type 0
TwoHopSwapEmitsOrderedHopsThenSummary =
    let ready = start ▹ set_rate f.pool 3 2 ▹ stock in
    let summary : Event = swap_executed (record {
      trader = f.trader;
      token_in = f.token_a;
      token_out = f.token_c;
      amount_in = pos 1000;
      amount_out = pos 1500;
      protocols = "test" ∷ "test" ∷ [];
      execution_id = 1;
      ledger = f.env.sequence;
      version = event_schema_version;
    }) in
    ((ready ▹ ask f (convert 1000 1400 (two_hops 1400 1400))) ≡ some (pos 1500))
    × ((ready ▹ router_events (convert 1000 1400 (two_hops 1400 1400)))
        ≡ some (
            expected_hop 1 0 f.pool f.token_a f.token_b 1000 1500
            ∷ expected_hop 1 1 f.pool2 f.token_b f.token_c 1500 1500
            ∷ summary
            ∷ []))

abbrev ExecutionIdsIncreaseAcrossSwaps : Type 0
ExecutionIdsIncreaseAcrossSwaps =
    let expected : ℕ → Option (List Event) = λ execution_id. some (
      expected_hop execution_id 0 f.pool f.token_a f.token_b 1000 1000
      ∷ expected_swap execution_id 1000 1000 ("test" ∷ [])
      ∷ []) in
    ((start ▹ fund ▹ router_events (buy 1000 900 (one_hop (pos 900)))) ≡ expected 1)
    × ((start
          ▹ fund
          ▹ call f (buy 1000 900 (one_hop (pos 900)))
          ▹ router_events (buy 1000 900 (one_hop (pos 900))))
        ≡ expected 2)

abbrev FailedSwapEmitsNothing : Type 0
FailedSwapEmitsNothing =
    let ready = start ▹ fund ▹ set_rate f.pool 1 2 in
    let failing = buy 1000 900 (one_hop (pos 1)) in
    ((ready ▹ attempt f failing) ≡ some (err insufficient_output))
    × ((ready ▹ router_events failing) ≡ some [])

abbrev LifecycleEventsCarryAdminAndConfig : Type 0
LifecycleEventsCarryAdminAndConfig =
    (router_events (λ env. Router.initialize env f.admin) registered
      ≡ some (initialized f.admin event_schema_version ∷ []))
    × ((call f (λ env. Router.initialize env f.admin) registered
          ▹ router_events (λ env. Router.set_protocol env "test" f.admin))
        ≡ some (protocol_set "test" f.admin event_schema_version ∷ []))

abbrev ManagementEventsCoverAdminPauseAndRemoval : Type 0
ManagementEventsCoverAdminPauseAndRemoval =
    let rotated = start ▹ call f (λ env. Router.set_admin env another) in
    let halted = rotated ▹ call f (λ env. Router.set_paused env true) in
    ((start ▹ router_events (λ env. Router.set_admin env another))
      ≡ some (admin_changed f.admin another event_schema_version ∷ []))
    × ((rotated ▹ router_events (λ env. Router.set_paused env true))
        ≡ some (pause_changed another true event_schema_version ∷ []))
    × ((halted ▹ router_events (λ env. Router.remove_protocol env "test"))
        ≡ some (protocol_removed "test" event_schema_version ∷ []))

swap_event_tests_pass :
    SwapEmitsJoinableHopAndSummary × TwoHopSwapEmitsOrderedHopsThenSummary
    × ExecutionIdsIncreaseAcrossSwaps × FailedSwapEmitsNothing
unfolding start swap_by TestAdapter.set_rate
swap_event_tests_pass = ((refl, refl), (refl, refl), (refl, refl), (refl, refl))

management_event_tests_pass :
    LifecycleEventsCarryAdminAndConfig × ManagementEventsCoverAdminPauseAndRemoval
unfolding start Router.initialize Router.set_protocol Router.set_admin Router.set_paused
    Router.remove_protocol
management_event_tests_pass = ((refl, refl), (refl, refl, refl))
