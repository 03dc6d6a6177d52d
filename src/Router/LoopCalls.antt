-- ===== src/Router/LoopCalls.antt =====
-- The execution loop of `Router::swap` and what follows it (contracts/router/src/lib.rs), among contracts
-- that count the calls of adapters.
use stellariq_contract.Prelude.{ℕ, ◌≤◌, ◌<◌, sym, subst, List, [], length, ℤ, arith}
use stellariq_contract.Soroban.{Address, Env, Tokens, Contract}
use stellariq_contract.Interfaces.{RouterError, SwapStep, Adapters, max_hops}
use stellariq_contract.Router.Storage.{State, next_nonce}
use stellariq_contract.Router.Swap.{execute_from}
use stellariq_contract.Router.Spec.{IsRegistered}
use stellariq_contract.Router.Settlement.{with_id, run_hops}
use stellariq_contract.Router.Tracking.{EndsAs, quiet_then, Tracks-bind}
use stellariq_contract.Router.Metering.{meter, unmetered, metered, then_none, execute_from-Tracks}
use stellariq_contract.Router.MeteredChecks.{next_nonce-Tracks, finish-Tracks}
use stellariq_contract.Router.FirstCall.{Calls-bind, called_same, execute_from-Calls}
use stellariq_contract.Router.BeforeCalls.{next_nonce-IsEarly, nonce_keeps_protocols}
use stellariq_contract.Router.CallCount.{CallsFor, none_made, with_id-OnTheWay, CallsFor-bounded}

module _ {W : Type 0} (tokens : Tokens W) (adapters : Adapters W) (env : Env)
    (trader token_in token_out : Address) (amount_in amount_out_min : ℤ) (deadline : ℕ)
    (path : List SwapStep) (few : length path ≤ max_hops) (some_hops : 0 < length path) where
  abbrev pub Fine :
      Contract (State W) RouterError ℤ → Contract (State (W × ℕ)) RouterError ℤ → State W → Type 0
  Fine m m' s = EndsAs meter (CallsFor (length path)) (m s) (m' (meter s 0))

  with_id-Fine :
      (last execution_id : ℕ) (s : State W)
      → IsRegistered s.protocols path
      → Fine
          (with_id tokens adapters env trader token_in token_out amount_in amount_out_min path last
            execution_id)
          (with_id
            (unmetered tokens)
            (metered adapters)
            env
            trader
            token_in
            token_out
            amount_in
            amount_out_min
            path
            last
            execution_id)
          s
  with_id-Fine last execution_id s h =
      let steps =
        Tracks-bind (then_none (length path))
          (execute_from-Tracks tokens adapters env trader last execution_id path (length path) 0
            amount_in [])
          (λ r.
            finish-Tracks tokens adapters env trader token_in token_out amount_in amount_out_min
              deadline path execution_id r) in
      let (c, e, _, most, all) = steps.run s 0 in
      record {
        calls = c;
        alike = e;
        allowed =
            CallsFor-bounded (length path) c _ few
              (with_id-OnTheWay tokens adapters env trader token_in token_out amount_in
                amount_out_min path last execution_id s h)
              most all
              (called_same _ _ s 0 c
                (Calls-bind 0
                  (λ r.
                    finish-Tracks tokens adapters env trader token_in token_out amount_in
                      amount_out_min deadline path execution_id r)
                  (execute_from tokens adapters env trader last execution_id path (length path) 0
                    amount_in [])
                  (execute_from (unmetered tokens) (metered adapters) env trader last execution_id
                    path (length path) 0 amount_in [])
                  s
                  (execute_from-Calls tokens adapters env trader last execution_id path amount_in s
                    some_hops h))
                e);
      }

  pub run_hops-Fine :
      (last : ℕ) (s : State W)
      → IsRegistered s.protocols path
      → Fine
          (run_hops tokens adapters env trader token_in token_out amount_in amount_out_min path
            last)
          (run_hops
            (unmetered tokens)
            (metered adapters)
            env
            trader
            token_in
            token_out
            amount_in
            amount_out_min
            path
            last)
          s
  run_hops-Fine last s h =
      quiet_then
        (with_id (unmetered tokens) (metered adapters) env trader token_in token_out amount_in
          amount_out_min path last)
        next_nonce next_nonce s (next_nonce-Tracks tokens adapters env)
        (λ e u ran. none_made (length path) e (next_nonce-IsEarly s e u ran))
        (omega arith, omega arith)
        (λ id u ran.
          with_id-Fine last id u
            (subst (λ z. IsRegistered z path) (sym (nonce_keeps_protocols s id u ran)) h))
