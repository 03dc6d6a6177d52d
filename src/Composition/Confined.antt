-- ===== src/Composition/Confined.antt =====
-- The test adapter (contracts/test-adapter/src/lib.rs) spends only its own funds, so the router's
-- theorems on balances apply to it (contracts/router/src/lib.rs, `Router::swap`).
use stellariq_contract.Prelude.{ℕ, ◌≡◌, ◌≢◌, sym, true, ◌&&◌, List, ◌==◌, ℤ, ◌+ℤ◌, ◌-ℤ◌, arith}
use stellariq_contract.Soroban.{Address, Env, Tokens, ok}
use stellariq_contract.Soroban.Payments.{untouched}
use stellariq_contract.Soroban.Sep41.{when, IsLedger}
use stellariq_contract.Interfaces.{SwapStep, AdapterCall, value}
use stellariq_contract.TestAdapter
use stellariq_contract.TestAdapter.Pricing.{swap_delivers-IsFloor}
use stellariq_contract.Router
use stellariq_contract.Router.Funds.{IsConfined}
use stellariq_contract.Router.Custody.{IsApart}
use stellariq_contract.Router.Safety.{swap_keeps_custody, swap_pays_trader}
use stellariq_contract.Composition.Wiring.{tokens_below, call_adapter, test_adapters}

module _ {W : Type 0} (tokens : Tokens W) (adapter_env : Env) (funds : W → Address → Address → ℤ)
    (ledger : IsLedger tokens funds) where
  open ledger use {balance_funds, transfer_funds}

  pub tokens_below-IsLedger : IsLedger (tokens_below tokens) (λ w. funds w.world)
  tokens_below-IsLedger = record {
    balance_funds = λ w token holder v e. balance_funds w.world token holder v e;
    transfer_funds = λ w invoker token from to x w' u h e.
        transfer_funds w.world invoker token from to x w'.world u h (ground arith);
  }

  pub answered :
      (w : TestAdapter.State W) (a : Address) (c : AdapterCall) (v : ℤ) (w' : TestAdapter.State W)
      → call_adapter tokens adapter_env w a c ≡ value v w'
      → (a ≡ adapter_env.contract) × (TestAdapter.swap tokens adapter_env c w ≡ (ok v, w'))
  unfolding call_adapter
  answered w a c v w' e = ground arith

  pub test_adapters-IsConfined :
      (h : Address) → IsConfined (test_adapters tokens adapter_env) (λ w. funds w.world) true h
  test_adapters-IsConfined h w a c v w' u e apart other =
      let (at, served) = answered w a c v w' e in
      let (out, _, (moved, _, _)) = swap_delivers-IsFloor tokens adapter_env c w v w' served in
      untouched (u == c.token_out && h == c.recipient)
        (u == c.token_out && h == adapter_env.contract) (funds w.world u h) (funds w'.world u h) out
        other (ground arith)
        (transfer_funds w.world adapter_env.contract c.token_out adapter_env.contract c.recipient
          out w'.world u h moved)

  -- Where the tokens keep to SEP-41, a swap through the test adapter that returns, whatever the
  -- adapter's rates, failures and misreports, leaves each balance of the router as it was, and takes
  -- from the trader exactly the input and gives exactly the returned amount, as long as router and
  -- trader differ and neither is a registered adapter.
  pub swap_balances :
      (env : Env) (trader token_in token_out : Address) (amount_in amount_out_min : ℤ)
      (deadline : ℕ) (path : List SwapStep) (s t : Router.State (TestAdapter.State W)) (out : ℤ)
      → env.contract ≢ trader
      → IsApart env.contract s
      → IsApart trader s
      → Router.swap
          (tokens_below tokens)
          (test_adapters tokens adapter_env)
          env
          trader
          token_in
          token_out
          amount_in
          amount_out_min
          deadline
          path
          s
        ≡ (ok out, t)
      → ((u : Address) → funds s.world.world u env.contract ≡ funds t.world.world u env.contract)
        × ((u : Address)
            → funds s.world.world u trader
                -ℤ when (u == token_in) amount_in
                +ℤ when (u == token_out) out
              ≡ funds t.world.world u trader)
  swap_balances env trader token_in token_out amount_in amount_out_min deadline path s t out apart
        router_apart trader_apart done =
      (
        swap_keeps_custody (tokens_below tokens) (test_adapters tokens adapter_env) env
            (λ w. funds w.world) tokens_below-IsLedger true trader token_in token_out amount_in
            amount_out_min deadline path s t out done apart (test_adapters-IsConfined env.contract)
            router_apart,
        swap_pays_trader (tokens_below tokens) (test_adapters tokens adapter_env) env
            (λ w. funds w.world) tokens_below-IsLedger true trader token_in token_out amount_in
            amount_out_min deadline path s t out done (λ e. apart (sym e))
            (test_adapters-IsConfined trader) trader_apart,
      )
