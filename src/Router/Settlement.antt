-- ===== src/Router/Settlement.antt =====
-- What `Router::swap` has done when it returns (contracts/router/src/lib.rs): the amounts of the
-- hops, the records, the execution id, and what it leaves alone.
use stellariq_contract.Prelude.{
  ℕ, zero, suc, ◌+◌, ◌^◌, ◌<◌, ◌≡◌, ◌≢◌, ◌⊎◌, inl, inr, refl, none, some, List, [], ◌∷◌, ◌++◌, map,
  length, append_assoc, IsFrom-start, Option-cases, Bool-cases, ltb_ℤ, ℤ, ◌≤ℤ◌, arith,
}
use stellariq_contract.Soroban.{
  Address, Symbol, Env, Tokens, Outcome, Contract, ok, err, trap, pure, fail_if, ok_or, bind_ok,
  bind_err, bind_trap, unwrap_or, instance_ttl, ◌>>=◌, ◌>>◌,
}
use stellariq_contract.Interfaces.{
  RouterError, empty_path, insufficient_output, swap_failed, overflow, SwapStep, SwapExecuted,
  Adapters, swap_executed, event_schema_version,
}
use stellariq_contract.Router.Storage.{
  State, next_nonce, ttl_threshold, ttl_extend, publish, extend_instance,
}
use stellariq_contract.Router.Swap.{checked_pred, token_transfer, execute_from, settlement}
use stellariq_contract.Router.Spec.{IsRegistered, Fills, final_amount, hop_records}
use stellariq_contract.Router.Hops.{Executed, execute_from-Executed}

-- The execution id that the next swap gets.
abbrev pub next_id : {W : Type 0} → State W → ℕ
next_id s = unwrap_or s.nonce 0 + 1

-- The next execution id is written back, unless a `u64` cannot hold it.
abbrev pub Allocated : {W : Type 0} → State W → Outcome RouterError ℕ × State W → Type 0
Allocated s r =
    ((r ≡ (ok (next_id s), record s { nonce = some (next_id s) })) × (next_id s < 2 ^ 64))
    ⊎ (r ≡ (err overflow, s))

pub next_nonce-Allocated : {W : Type 0} (s : State W) → s.admin ≢ none → Allocated s (next_nonce s)
unfolding next_nonce
next_nonce-Allocated s h = ground arith

checked_pred-some : (n : ℕ) → 0 < n → (last : ℕ) × (checked_pred n ≡ some last)
checked_pred-some zero h = elim h [ ]
checked_pred-some (suc n) h = (n, refl)

-- A transfer traps, or changes only the other contracts.
transfer-cases :
    {W : Type 0} (tokens : Tokens W) (adapters : Adapters W) (env : Env) (token from to : Address)
    (amount : ℤ) (s : State W)
    → (token_transfer tokens adapters env token from to amount s ≡ (trap, s))
      ⊎ ((w : W) × (token_transfer tokens adapters env token from to amount s
            ≡ (ok tt, record s { world = w })))
unfolding token_transfer
transfer-cases tokens adapters env token from to amount s =
    elim (Option-cases (tokens.transfer s.world env.contract token from to amount)) [
      | inl e ↦ inl (ground arith)
      | inr (w, e) ↦ inr (w, ground arith)
    ]

module _ {W : Type 0} (tokens : Tokens W) (adapters : Adapters W) (env : Env)
    (trader token_in token_out : Address) (amount_in amount_out_min : ℤ)
    (path : List SwapStep) where
  abbrev pub summary : ℕ → ℤ → SwapExecuted
  summary execution_id amount_out = record {
    trader = trader;
    token_in = token_in;
    token_out = token_out;
    amount_in = amount_in;
    amount_out = amount_out;
    protocols = map (λ x. x.protocol) path;
    execution_id = execution_id;
    ledger = env.sequence;
    version = event_schema_version;
  }

  -- The storage after a swap: a new nonce, one record for each hop and then the summary, and a longer
  -- life for the instance.
  abbrev pub settled : State W → List ℤ → W → State W
  settled s amounts w = record s {
    nonce = some (next_id s);
    events =
        s.events
        ++ (hop_records (next_id s) trader 0 amount_in path amounts
            ++ (swap_executed (summary (next_id s) (final_amount amount_in amounts)) ∷ []));
    extensions = s.extensions ++ (instance_ttl ttl_threshold ttl_extend ∷ []);
    world = w;
  }

  abbrev pub IsExecutionError : RouterError → Type 0
  IsExecutionError e = (e ≡ swap_failed) ⊎ (e ≡ insufficient_output) ⊎ (e ≡ overflow)

  abbrev pub Settled : State W → Outcome RouterError ℤ × State W → Type 0
  Settled s (ok out, t) =
      (amounts : List ℤ) × Fills path amounts
      × (out ≡ final_amount amount_in amounts)
      × (amount_out_min ≤ℤ out)
      × (next_id s < 2 ^ 64)
      × (t ≡ settled s amounts t.world)
  Settled s (err e, t) = IsExecutionError e
  Settled s (trap, t) = Unit

  -- The end of `swap`, after the execution loop.
  abbrev pub finish : ℕ → ℤ × List Symbol → Contract (State W) RouterError ℤ
  finish execution_id (amount_out, protocols) = do
    fail_if (ltb_ℤ amount_out amount_out_min) insufficient_output
    publish (
        swap_executed (record {
          trader = trader;
          token_in = token_in;
          token_out = token_out;
          amount_in = amount_in;
          amount_out = amount_out;
          protocols = protocols;
          execution_id = execution_id;
          ledger = env.sequence;
          version = event_schema_version;
        }))
    extend_instance
    pure amount_out

  finish-Settled :
      (last : ℕ) (s : State W) (w : W)
      → next_id s < 2 ^ 64
      → (run : Outcome RouterError (ℤ × List Symbol) × State W)
      → Executed tokens adapters env trader last
          (next_id s)
          0
          path
          amount_in
          []
          (record s { nonce = some (next_id s); world = w })
          run
      → Settled s (((λ _. run) >>= finish (next_id s)) s)
  finish-Settled last s w h (ok (a, ps), t) (amounts, f, l, q, v) =
      elim (Bool-cases (ltb_ℤ a amount_out_min)) [
        | inl short ↦ rw short (inr (inl refl))
        | inr enough ↦ rw enough (
          amounts,
          f,
          l,
          ground arith,
          h,
          ground (
            arith,
            append_assoc s.events (hop_records (next_id s) trader 0 amount_in path amounts)
                (swap_executed (summary (next_id s) (final_amount amount_in amounts)) ∷ []),
          ),
        )
      ]
  finish-Settled last s w h (err e, t) k = ground arith
  finish-Settled last s w h (trap, t) k = tt

  -- `swap` from the allocation of the execution id on.
  abbrev pub with_id : ℕ → ℕ → Contract (State W) RouterError ℤ
  with_id last execution_id =
      execute_from tokens adapters env trader last execution_id path (length path) 0 amount_in []
      >>= finish execution_id

  abbrev pub run_hops : ℕ → Contract (State W) RouterError ℤ
  run_hops last = next_nonce >>= with_id last

  run_hops-Settled :
      (last : ℕ) (s : State W) (w : W)
      → s.admin ≢ none
      → IsRegistered s.protocols path
      → Settled s (run_hops last (record s { world = w }))
  run_hops-Settled last s w a r = elim (next_nonce-Allocated (record s { world = w }) a) [
    | inl (allocated, fits) ↦
        bind_ok (Settled s) next_nonce (with_id last) (record s { world = w }) (next_id s)
          (record s { nonce = some (next_id s); world = w }) allocated
          (finish-Settled last s w fits _ (
            execute_from-Executed tokens adapters env trader last (next_id s) path path 0 amount_in
              [] (record s { nonce = some (next_id s); world = w }) (IsFrom-start path) r))
    | inr full ↦
        bind_err (Settled s) next_nonce (with_id last) (record s { world = w }) overflow
          (record s { world = w }) full (inr (inr refl))
  ]

  pub settlement-Settled :
      (s : State W)
      → s.admin ≢ none
      → 0 < length path
      → IsRegistered s.protocols path
      → Settled s
          (settlement tokens adapters env trader token_in token_out amount_in amount_out_min path s)
  unfolding settlement
  settlement-Settled s a n r =
      let pull = token_transfer tokens adapters env token_in trader env.contract amount_in in
      let (last, counted) = checked_pred-some (length path) n in
      let rest : Contract (State W) RouterError ℤ =
        ok_or (checked_pred (length path)) empty_path >>= run_hops in
      elim (transfer-cases tokens adapters env token_in trader env.contract amount_in s) [
        | inl stopped ↦ bind_trap (Settled s) pull (λ _. rest) s s stopped tt
        | inr (w, moved) ↦
            bind_ok (Settled s) pull (λ _. rest) s tt (record s { world = w }) moved
              (rw counted (run_hops-Settled last s w a r))
      ]
