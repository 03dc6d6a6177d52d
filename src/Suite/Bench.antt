-- ===== src/Suite/Bench.antt =====
-- What the tests of contracts/router/src share: the network of fixture.rs over plain ledgers, and the
-- calls of its contracts, in a row.
use stellariq_contract.Prelude.{
  ℕ, ◌+◌, ◌*ℤ◌, ◌-ℤ◌, ◌+ℤ◌, Bool, true, false, Option, none, some, List, [], ◌∷◌, ℤ, pos,
  checked_sub, checked_mul, checked_div, nat_eq, string_eq,
}
use stellariq_contract.Soroban.{Address, Env, Contract, Outcome, ok, err, trap, invoke}
use stellariq_contract.Interfaces.{RouterError, AdapterError, SwapStep, and_then, checked_mul_div}
use stellariq_contract.TestAdapter
use stellariq_contract.Router
use stellariq_contract.Router.Entries.{deployed}
use stellariq_contract.Composition.{tokens_below, test_adapters, call_adapter}
use stellariq_contract.Fixture.{
  Fixture, Network, deadline, parties, setup, unset, router, adapter, mint, balance,
  fund_single_hop, step, step_on_pool,
}
use stellariq_contract.Scenario.{Ledger, plain_tokens, plain_mint, no_funds}

abbrev pub generate : ℕ → Address
generate n = n + 1

abbrev pub f : Fixture
f = parties generate

-- A test goes on with what its last call gives, or has panicked.
infixl 5 ◌▹◌
abbrev pub ◌▹◌ : {A B : Type 0} → Option A → (A → Option B) → Option B
before ▹ call = and_then before call

-- `let f = setup();`
unfoldable pub start : Option (Network Ledger)
unfolding setup Router.initialize TestAdapter.initialize Router.set_protocol
start = setup generate 0 no_funds ▹ λ r. some r.1

-- `mint(&f.env, token, to, amount);`
abbrev pub give : Address → Address → ℕ → Network Ledger → Option (Network Ledger)
give token to amount = mint plain_mint token to (pos amount)

-- `fund_single_hop(&f, 10_000, 10_000);`
abbrev pub fund : Network Ledger → Option (Network Ledger)
fund = fund_single_hop plain_mint f (pos 10000) (pos 10000)

module _ {A : Type 0} where
  -- A call through `router(&f)`, and the network that it leaves.
  abbrev pub call :
      Fixture
      → (Env → Contract (Network Ledger) RouterError A)
      → Network Ledger
      → Option (Network Ledger)
  call g entry s = router g entry s ▹ λ r. some r.1

  -- What such a call returns.
  abbrev pub ask :
      Fixture → (Env → Contract (Network Ledger) RouterError A) → Network Ledger → Option A
  ask g entry s = router g entry s ▹ λ r. some r.0

  -- `router(&f).try_..`: how the call ends, and the network that it leaves.
  abbrev pub attempt :
      Fixture
      → (Env → Contract (Network Ledger) RouterError A)
      → Network Ledger
      → Option (Outcome RouterError A)
  attempt g entry s = some (invoke (entry g.env) s).0

  abbrev pub after_attempt :
      Fixture
      → (Env → Contract (Network Ledger) RouterError A)
      → Network Ledger
      → Option (Network Ledger)
  after_attempt g entry s = some (invoke (entry g.env) s).1

  -- The same of `adapter(&f)`.
  abbrev pub call_on_adapter :
      Fixture
      → (Env → Contract (TestAdapter.State Ledger) AdapterError A)
      → Network Ledger
      → Option (Network Ledger)
  call_on_adapter g entry s = adapter g entry s ▹ λ r. some r.1

  abbrev pub attempt_on_adapter :
      Fixture
      → (Env → Contract (TestAdapter.State Ledger) AdapterError A)
      → Network Ledger
      → Option (Outcome AdapterError A)
  attempt_on_adapter g entry s =
      some (invoke (entry (record g.env { contract = g.adapter_id })) s.world).0

-- The arguments of `swap` after the trader's, up to the deadline, which is always the same.
unfoldable pub swap_by :
    Address
    → Address
    → Address
    → ℤ
    → ℤ
    → List SwapStep
    → Env
    → Contract (Network Ledger) RouterError ℤ
unfolding call_adapter ◌+ℤ◌ ◌-ℤ◌ ◌*ℤ◌ checked_sub checked_mul checked_div checked_mul_div
    Router.next_nonce Router.swap Router.check_terms Router.check_route Router.settlement
    Router.validate_path Router.validate_from Router.check_protocols_from Router.token_transfer
    Router.execute_from Router.execute_hop Router.deliver Router.adapter_swap TestAdapter.swap
swap_by trader token_in token_out amount_in amount_out_min path env =
    Router.swap (tokens_below plain_tokens)
      (test_adapters plain_tokens (record env { contract = f.adapter_id })) env trader token_in
      token_out amount_in amount_out_min deadline path

abbrev pub swap :
    Address → Address → ℤ → ℤ → List SwapStep → Env → Contract (Network Ledger) RouterError ℤ
swap = swap_by f.trader

-- `Address::generate(&f.env)`, the first after those of `setup`.
abbrev pub another : Address
another = generate 9

-- One hop over the pool, from the first token to the second.
abbrev pub one_hop : ℤ → List SwapStep
one_hop min = step f f.token_a f.token_b min ∷ []

-- A swap of the first token for the second.
abbrev pub buy : ℕ → ℕ → List SwapStep → Env → Contract (Network Ledger) RouterError ℤ
buy amount_in amount_out_min = swap f.token_a f.token_b (pos amount_in) (pos amount_out_min)

-- A route over the pool and then the second pool, from the first token to the third.
abbrev pub two_hops : ℕ → ℕ → List SwapStep
two_hops min min2 =
    step_on_pool f.pool f.token_a f.token_b (pos min)
    ∷ step_on_pool f.pool2 f.token_b f.token_c (pos min2)
    ∷ []

-- A swap of the first token for the third.
abbrev pub convert : ℕ → ℕ → List SwapStep → Env → Contract (Network Ledger) RouterError ℤ
convert amount_in amount_out_min = swap f.token_a f.token_c (pos amount_in) (pos amount_out_min)

abbrev pub set_rate : Address → ℕ → ℕ → Network Ledger → Option (Network Ledger)
set_rate pool num denom =
    call_on_adapter f (λ env. TestAdapter.set_rate env f.admin pool (pos num) (pos denom))

-- The first token for the trader, and the two others for the adapter.
abbrev pub stock : Network Ledger → Option (Network Ledger)
stock s =
    give f.token_a f.trader 10000 s
    ▹ give f.token_b f.adapter_id 20000
    ▹ give f.token_c f.adapter_id 20000

-- `balance(&f.env, token, holder)`
abbrev pub holds : Address → Address → Network Ledger → Option ℤ
holds token holder s = balance plain_tokens token holder s

-- The ledger's time, set by `f.env.ledger().set_timestamp(..)`.
abbrev pub at_time : ℕ → Fixture
at_time now = record f { env = record f.env { timestamp = now } }

-- Nobody signs, and the ledger's time is the default's.
abbrev pub unsigned : Fixture
unsigned = record f { env = record f.env { timestamp = 0; signed = λ a. false } }

-- `Env::default()` with a router that is registered and no more.
abbrev pub registered : Network Ledger
registered = deployed 0 (unset no_funds)

-- `res.is_err()`
abbrev pub is_err : {E A : Type 0} → Option (Outcome E A) → Bool
is_err none = false
is_err (some (ok a)) = false
is_err (some (err e)) = true
is_err (some trap) = true
