-- ===== src/Router/Metering.antt =====
-- `Router::swap` (contracts/router/src/lib.rs) among contracts that count the calls of adapters: the
-- execution loop.
use stellariq_contract.Prelude.{
  ℕ, zero, suc, ◌+◌, ◌≡◌, refl, none, some, Option, List, [], ◌∷◌, ◌++◌, if◌then◌else◌, ◌==◌, ℤ,
  get_elem?, arith,
}
use stellariq_contract.Soroban.{Address, Symbol, Env, Tokens, Contract, gets, pure, ◌>>◌}
use stellariq_contract.Interfaces.{
  RouterError, SwapStep, Adapters, value, unreadable, refused, aborted, Event, protocol_not_found,
  empty_path,
}
use stellariq_contract.Router.Storage.{State, publish}
use stellariq_contract.Router.Swap.{
  token_transfer, adapter_swap, deliver, execute_hop, execute_from,
}
use stellariq_contract.Router.Hops.{record_of}
use stellariq_contract.Router.Tracking.{Tracks-pure, Tracks-ok_or, Tracks-gets, Tracks, Tracks-bind}

module _ {W : Type 0} where
  -- A storage among contracts that have counted `n` calls.
  abbrev pub meter : State W → ℕ → State (W × ℕ)
  meter s n = record {
    admin = s.admin;
    paused = s.paused;
    nonce = s.nonce;
    protocols = s.protocols;
    code = s.code;
    events = s.events;
    extensions = s.extensions;
    world = (s.world, n);
  }

  -- Token calls are not counted.
  abbrev pub unmetered : Tokens W → Tokens (W × ℕ)
  unmetered tokens = record {
    balance = λ w token holder. tokens.balance w.0 token holder;
    transfer = λ w invoker token from to amount.
        elim (tokens.transfer w.0 invoker token from to amount) [
          | none ↦ none
          | some v ↦ some (v, w.1)
        ];
  }

  -- Every call of an adapter counts, also one that fails. The router treats an answer that it cannot
  -- read as it treats a failure.
  abbrev pub metered : Adapters W → Adapters (W × ℕ)
  metered adapters = record {
    try_swap = λ w adapter call. elim (adapters.try_swap w.0 adapter call) [
      | value reported v ↦ value reported (v, w.1 + 1)
      | unreadable v ↦ unreadable (v, w.1 + 1)
      | refused e ↦ unreadable (w.0, w.1 + 1)
      | aborted ↦ unreadable (w.0, w.1 + 1)
    ];
  }

pub none_then : (k : ℕ) → 0 + k ≡ k
none_then k = omega arith

pub then_none : (k : ℕ) → k + 0 ≡ k
then_none k = omega arith

one_then : (k : ℕ) → 1 + k ≡ suc k
one_then k = omega arith

module _ {W : Type 0} (tokens : Tokens W) (adapters : Adapters W) (env : Env) where
  pub token_transfer-Tracks :
      (token from to : Address) (amount : ℤ)
      → Tracks meter 0
          (token_transfer tokens adapters env token from to amount)
          (token_transfer (unmetered tokens) (metered adapters) env token from to amount)
  unfolding token_transfer
  token_transfer-Tracks token from to amount = record {
    run = λ s n. (n, ground arith, ground arith, ground arith, λ r. ground arith);
  }

  calls_made : Option ℤ → ℕ → ℕ
  calls_made none n = n
  calls_made (some before) n = n + 1

  deliver-Tracks :
      (adapter : Address) (step : SwapStep) (recipient : Address) (amount : ℤ)
      → Tracks meter 1
          (deliver tokens adapters env adapter step recipient amount)
          (deliver (unmetered tokens) (metered adapters) env adapter step recipient amount)
  unfolding deliver adapter_swap calls_made
  deliver-Tracks adapter step recipient amount = record {
    run = λ s n. (
      calls_made (tokens.balance s.world step.token_out recipient) n,
      ground arith,
      ground arith,
      ground arith,
      λ r. ground arith,
    );
  }

  pub entry-Tracks :
      (protocol : Symbol)
      → Tracks meter 0
          (gets {S = State W} {E = RouterError} (λ s. s.protocols protocol))
          (gets {S = State (W × ℕ)} (λ s. s.protocols protocol))
  entry-Tracks protocol =
      Tracks-gets (λ s. s.protocols protocol) (λ s. s.protocols protocol) λ s n. refl

  -- What a hop does once its output is known.
  abbrev recorded : Event → ℤ → {V : Type 0} → Contract (State V) RouterError ℤ
  recorded e a = do publish e; pure a

  recorded-Tracks :
      (e : Event) (a : ℤ) → Tracks meter 0 (recorded e a {V = W}) (recorded e a {V = W × ℕ})
  recorded-Tracks e a = record {
    run = λ s n. (n, refl, omega arith, omega arith, λ r. omega arith);
  }

  pub execute_hop-Tracks :
      (trader : Address) (last execution_id i : ℕ) (step : SwapStep) (amount : ℤ)
      → Tracks meter 1 (execute_hop tokens adapters env trader last execution_id i step amount) (
          execute_hop
            (unmetered tokens)
            (metered adapters)
            env
            trader
            last
            execution_id
            i
            step
            amount)
  unfolding execute_hop
  execute_hop-Tracks trader last execution_id i step amount =
      let recipient = if i == last then trader else env.contract in
      Tracks-bind refl (entry-Tracks step.protocol) λ found.
        Tracks-bind refl (Tracks-ok_or found protocol_not_found) λ adapter.
          Tracks-bind refl (token_transfer-Tracks step.token_in env.contract adapter amount) λ _.
            Tracks-bind refl (deliver-Tracks adapter step recipient amount) λ hop_out.
              recorded-Tracks
                (record_of tokens adapters env trader last execution_id i step amount hop_out)
                hop_out

  pub execute_from-Tracks :
      (trader : Address) (last execution_id : ℕ) (path : List SwapStep) (rounds i : ℕ) (amount : ℤ)
      (protocols : List Symbol)
      → Tracks meter rounds
          (execute_from tokens adapters env trader last execution_id path rounds i amount protocols)
          (execute_from
            (unmetered tokens)
            (metered adapters)
            env
            trader
            last
            execution_id
            path
            rounds
            i
            amount
            protocols)
  unfolding execute_from
  execute_from-Tracks trader last execution_id path zero i amount protocols =
      Tracks-pure (amount, protocols)
  execute_from-Tracks trader last execution_id path (suc rounds) i amount protocols =
      Tracks-bind (none_then (suc rounds)) (Tracks-ok_or (get_elem? path i) empty_path) λ step.
        Tracks-bind (one_then rounds) (execute_hop-Tracks trader last execution_id i step amount)
          λ hop_out.
            execute_from-Tracks trader last execution_id path rounds (i + 1) hop_out
              (protocols ++ (step.protocol ∷ []))
