-- ===== src/Suite/Security.antt =====
-- contracts/router/src/test_security.rs: signatures that are missing, amounts at the edges, and calls
-- that are the admin's.
use stellariq_contract.Prelude.{
  ℕ, Bool, false, Option, ◌==◌, ◌*◌, ◌-◌, ◌/◌, ◌^◌, ◌≡◌, refl, true, false, Option, some, [], ◌∷◌,
  pos, negsuc, nat_eq, string_eq,
}
use stellariq_contract.Soroban.{Address, Hash, ok, err, trap}
use stellariq_contract.Interfaces.{zero_amount, invalid_min_out}
use stellariq_contract.Router
use stellariq_contract.TestAdapter
use stellariq_contract.Fixture.{Fixture, step, Network}
use stellariq_contract.Scenario.{Ledger}
use stellariq_contract.Suite.Bench.{
  f, another, one_hop, buy, ◌▹◌, start, give, fund, call, ask, attempt, after_attempt,
  call_on_adapter, attempt_on_adapter, swap, swap_by, holds, unsigned, registered, is_err,
}

-- The authorizations of one call: those of the addresses that pass the test.
abbrev signed_by : (Address → Bool) → Fixture
signed_by signers = record f { env = record f.env { signed = signers } }

-- `setup_selective_auth`: nobody signs but the admin, who signs `set_protocol` and the minting.
unfoldable setup_selective_auth : Option (Network Ledger)
unfolding Router.initialize TestAdapter.initialize Router.set_protocol
setup_selective_auth =
    call (signed_by (λ a. false)) (λ env. Router.initialize env f.admin) registered
    ▹ call_on_adapter (signed_by (λ a. false)) (λ env. TestAdapter.initialize f.admin)
    ▹ call (signed_by (λ a. a == f.admin)) (λ env. Router.set_protocol env "test" f.adapter_id)
    ▹ give f.token_a f.trader 10000
    ▹ give f.token_b f.adapter_id 10000

abbrev SwapWithoutTraderAuthFailsAtHostLevel : Type 0
SwapWithoutTraderAuthFailsAtHostLevel =
    let unsigned_swap = buy 1000 900 (one_hop (pos 900)) in
    let reverted = setup_selective_auth ▹ after_attempt (signed_by (λ a. false)) unsigned_swap in
    ((setup_selective_auth ▹ attempt (signed_by (λ a. false)) unsigned_swap) ≡ some trap)
    × ((reverted ▹ holds f.token_a f.trader) ≡ some (pos 10000))
    × ((reverted ▹ holds f.token_b f.trader) ≡ some (pos 0))

abbrev SwapWithWrongTraderAuthFails : Type 0
SwapWithWrongTraderAuthFails =
    let same_swap = buy 1000 900 (one_hop (pos 900)) in
    let impostor = signed_by (λ a. a == another) in
    let trader = signed_by (λ a. a == f.trader) in
    ((setup_selective_auth ▹ attempt impostor same_swap) ≡ some trap)
    × ((setup_selective_auth ▹ after_attempt impostor same_swap ▹ attempt trader same_swap)
        ≡ some (ok (pos 1000)))

abbrev NegativeAmountInFails : Type 0
NegativeAmountInFails =
    (start ▹ attempt f (swap f.token_a f.token_b (negsuc 99) (pos 1) (one_hop (pos 1))))
    ≡ some (err zero_amount)

abbrev NegativeHopMinFails : Type 0
NegativeHopMinFails =
    (start ▹ attempt f (buy 1000 900 (one_hop (negsuc 4)))) ≡ some (err invalid_min_out)

abbrev NegativeGlobalMinFails : Type 0
NegativeGlobalMinFails =
    (start ▹ attempt f (swap f.token_a f.token_b (pos 1000) (negsuc 0) (one_hop (pos 1))))
    ≡ some (err invalid_min_out)

abbrev UnregisteredTokenAddressFailsSafely : Type 0
UnregisteredTokenAddressFailsSafely =
    (start
      ▹ attempt f
          (swap another f.token_b (pos 1000) (pos 900) (step f another f.token_b (pos 1) ∷ [])))
    ≡ some trap

abbrev SameTokenSingleHopRoundTrips : Type 0
SameTokenSingleHopRoundTrips =
    let ready = start ▹ give f.token_a f.trader 10000 ▹ give f.token_a f.adapter_id 50000 in
    let looping =
      swap f.token_a f.token_a (pos 1000) (pos 900) (step f f.token_a f.token_a (pos 900) ∷ []) in
    ((ready ▹ ask f looping) ≡ some (pos 1000))
    × ((ready ▹ call f looping ▹ holds f.token_a f.trader) ≡ some (pos 10000))

abbrev ZeroHopMinDefersToGlobalMin : Type 0
ZeroHopMinDefersToGlobalMin =
    (start ▹ fund ▹ ask f (buy 1000 900 (one_hop (pos 0)))) ≡ some (pos 1000)

abbrev whale : ℕ
whale = 1_000_000_000_000_000_000

abbrev LargeValuesRoundTripExactly : Type 0
LargeValuesRoundTripExactly =
    let ready =
      start ▹ give f.token_a f.trader (2 * whale) ▹ give f.token_b f.adapter_id (2 * whale) in
    let large = buy whale whale (one_hop (pos whale)) in
    ((ready ▹ ask f large) ≡ some (pos whale))
    × ((ready ▹ call f large ▹ holds f.token_a f.trader) ≡ some (pos whale))
    × ((ready ▹ call f large ▹ holds f.token_b f.trader) ≡ some (pos whale))

authorization_tests_pass : SwapWithoutTraderAuthFailsAtHostLevel × SwapWithWrongTraderAuthFails
unfolding setup_selective_auth swap_by
authorization_tests_pass = ((refl, refl, refl), (refl, refl))

malformed_tests_pass :
    NegativeAmountInFails × NegativeHopMinFails × NegativeGlobalMinFails
    × UnregisteredTokenAddressFailsSafely
unfolding start swap_by
malformed_tests_pass = (refl, refl, refl, refl)

boundary_tests_pass :
    SameTokenSingleHopRoundTrips × ZeroHopMinDefersToGlobalMin × LargeValuesRoundTripExactly
unfolding start swap_by
boundary_tests_pass = ((refl, refl), refl, (refl, refl, refl))

abbrev AdapterManagementRequiresAdapterAdmin : Type 0
AdapterManagementRequiresAdapterAdmin =
    let ready = call_on_adapter unsigned (λ env. TestAdapter.initialize f.admin) registered in
    (is_err (
        ready
        ▹ attempt_on_adapter unsigned
            (λ env. TestAdapter.set_rate env another f.pool (pos 1) (pos 1)))
      ≡ true)
    × (is_err (
          ready ▹ attempt_on_adapter unsigned (λ env. TestAdapter.set_fail env another f.pool true))
        ≡ true)
    × (is_err (
          ready
          ▹ attempt_on_adapter unsigned
              (λ env. TestAdapter.set_misreport env another f.pool (pos 1)))
        ≡ true)

-- `[9u8; 32]`
abbrev nines : Hash
nines = 9 * ((2 ^ 256 - 1) / 255)

abbrev RouterUpgradeRequiresAdmin : Type 0
RouterUpgradeRequiresAdmin =
    let ready = call unsigned (λ env. Router.initialize env f.admin) registered in
    (is_err (ready ▹ attempt unsigned (λ env. Router.upgrade env nines)) ≡ true)
    × ((ready
          ▹ after_attempt unsigned (λ env. Router.upgrade env nines)
          ▹ ask unsigned (λ env. Router.get_admin))
        ≡ some f.admin)

gating_tests_pass : AdapterManagementRequiresAdapterAdmin × RouterUpgradeRequiresAdmin
unfolding Router.initialize Router.upgrade Router.get_admin TestAdapter.initialize
    TestAdapter.set_rate TestAdapter.set_fail TestAdapter.set_misreport
gating_tests_pass = ((refl, refl, refl), (refl, refl))
