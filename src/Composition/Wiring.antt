-- ===== src/Composition/Wiring.antt =====
-- One test adapter (contracts/test-adapter/src/lib.rs) as the adapters of the router: what the host
-- makes of `AdapterClient::try_swap` when it calls `TestAdapter::swap`.
use stellariq_contract.Prelude.{none, some, ◌==◌, if◌then◌else◌, ℤ}
use stellariq_contract.Soroban.{Address, Env, Tokens, Outcome, ok, err, trap}
use stellariq_contract.Interfaces.{
  AdapterError, AdapterCall, Adapters, Reply, value, refused, aborted,
}
use stellariq_contract.TestAdapter

-- The token contracts, below the state of the adapter.
abbrev pub tokens_below : {W : Type 0} → Tokens W → Tokens (TestAdapter.State W)
tokens_below tokens = record {
  balance = λ w token holder. tokens.balance w.world token holder;
  transfer = λ w invoker token from to amount.
      elim (tokens.transfer w.world invoker token from to amount) [
        | none ↦ none
        | some m ↦ some (record w { world = m })
      ];
}

abbrev pub reply_of :
    {W : Type 0} → Outcome AdapterError ℤ × TestAdapter.State W → Reply (TestAdapter.State W)
reply_of (ok reported, w) = value reported w
reply_of (err e, w) = refused e
reply_of (trap, w) = aborted

module _ {W : Type 0} (tokens : Tokens W) (adapter_env : Env) where
  -- The adapter stands at the address of its context. A call of another address fails.
  unfoldable pub call_adapter :
      TestAdapter.State W → Address → AdapterCall → Reply (TestAdapter.State W)
  call_adapter w adapter call =
      if adapter == adapter_env.contract
      then reply_of (TestAdapter.swap tokens adapter_env call w)
      else aborted

  abbrev pub test_adapters : Adapters (TestAdapter.State W)
  test_adapters = record { try_swap = call_adapter }
