-- ===== src/Router/Swap.antt =====
-- contracts/router/src/lib.rs: `Router::swap` and `validate_path`, with the calls of token and
-- adapter contracts that they make.
use stellariq_contract.Prelude.{
  ℕ, zero, suc, ◌+◌, false, not, Option, none, some, List, [], ◌∷◌, ◌++◌, length, get_elem?, ltb,
  ◌==◌, if◌then◌else◌, ℤ, pos, ltb_ℤ, leb_ℤ, checked_sub,
}
use stellariq_contract.Soroban.{
  Address, Symbol, Env, Tokens, Contract, ok, err, trap, pure, fail_if, gets, ok_or, or_trap,
  unwrap_or, has, require_auth, ◌>>=◌, ◌>>◌,
}
use stellariq_contract.Interfaces.{
  RouterError, expired, zero_amount, invalid_min_out, empty_path, too_many_hops, discontinuous_path,
  protocol_not_found, insufficient_output, swap_failed, insufficient_balance, SwapStep, AdapterCall,
  Adapters, value, unreadable, refused, aborted, swap_executed, hop_executed, max_hops,
  event_schema_version,
}
use stellariq_contract.Router.Storage.{State, publish, extend_instance, read_admin, next_nonce}

-- `path.get(i).ok_or(RouterError::EmptyPath)?`
abbrev pub step_at : {W : Type 0} → List SwapStep → ℕ → Contract (State W) RouterError SwapStep
step_at path i = ok_or (get_elem? path i) empty_path

-- `hops.checked_sub(1)` on a `u32`
abbrev pub checked_pred : ℕ → Option ℕ
checked_pred zero = none
checked_pred (suc n) = some n

module _ {W : Type 0} where
  -- The loop of `validate_path`, with the rounds left, the index and the cursor.
  unfoldable pub validate_from :
      ℕ → ℕ → Address → Address → List SwapStep → Contract (State W) RouterError (Unit {0})
  validate_from zero i cursor token_out path =
      fail_if (not (cursor == token_out)) discontinuous_path
  validate_from (suc rounds) i cursor token_out path = do
    step ← step_at path i
    fail_if (not (step.token_in == cursor)) discontinuous_path
    fail_if (ltb_ℤ step.amount_out_min (pos 0)) invalid_min_out
    validate_from rounds (i + 1) step.token_out token_out path

  unfoldable pub validate_path :
      Address → Address → List SwapStep → Contract (State W) RouterError (Unit {0})
  validate_path token_in token_out path = validate_from (length path) 0 token_in token_out path

  -- The loop of `swap` that looks every protocol up before any funds move.
  unfoldable pub check_protocols_from :
      ℕ → ℕ → List SwapStep → Contract (State W) RouterError (Unit {0})
  check_protocols_from zero i path = pure tt
  check_protocols_from (suc rounds) i path = do
    pre ← step_at path i
    fail_if (not (has (← gets (λ s. s.protocols pre.protocol)))) protocol_not_found
    check_protocols_from rounds (i + 1) path

module _ {W : Type 0} (tokens : Tokens W) (adapters : Adapters W) (env : Env) where
  -- `TokenClient::new(&env, &token).balance(&holder)`
  abbrev pub token_balance : Address → Address → Contract (State W) RouterError ℤ
  token_balance token holder s = or_trap (tokens.balance s.world token holder) s

  -- `TokenClient::new(&env, &token).transfer(&from, &to, &amount)`
  unfoldable pub token_transfer :
      Address → Address → Address → ℤ → Contract (State W) RouterError (Unit {0})
  token_transfer token from to amount s =
      elim (tokens.transfer s.world env.contract token from to amount) [
        | none ↦ (trap, s)
        | some w ↦ (ok tt, record s { world = w })
      ]

  -- `AdapterClient::new(&env, &adapter).try_swap(..)` with both `map_err`s.
  unfoldable pub adapter_swap : Address → AdapterCall → Contract (State W) RouterError ℤ
  adapter_swap adapter call s = elim (adapters.try_swap s.world adapter call) [
    | value reported w ↦ (ok reported, record s { world = w })
    | unreadable w ↦ (err swap_failed, record s { world = w })
    | refused _ ↦ (err swap_failed, s)
    | aborted ↦ (err swap_failed, s)
  ]

  -- The checks on one adapter call, around it: the delivery is the growth of the recipient's balance.
  unfoldable pub deliver : Address → SwapStep → Address → ℤ → Contract (State W) RouterError ℤ
  deliver adapter step recipient hop_amount_in = do
    before ← token_balance step.token_out recipient
    reported ← adapter_swap adapter (record {
      pool = step.pool;
      token_in = step.token_in;
      token_out = step.token_out;
      amount_in = hop_amount_in;
      amount_out_min = step.amount_out_min;
      recipient = recipient;
    })
    fail_if (leb_ℤ reported (pos 0)) swap_failed
    after ← token_balance step.token_out recipient
    delivered ← ok_or (checked_sub after before) swap_failed
    fail_if (ltb_ℤ delivered reported) swap_failed
    fail_if (ltb_ℤ delivered step.amount_out_min) insufficient_output
    pure delivered

  -- One round of the execution loop of `swap`.
  unfoldable pub execute_hop : Address → ℕ → ℕ → ℕ → SwapStep → ℤ → Contract (State W) RouterError ℤ
  execute_hop trader last execution_id i step hop_amount_in = do
    adapter ← ok_or (← gets (λ s. s.protocols step.protocol)) protocol_not_found
    token_transfer step.token_in env.contract adapter hop_amount_in
    let recipient = if i == last then trader else env.contract
    hop_out ← deliver adapter step recipient hop_amount_in
    publish (
        hop_executed (record {
          execution_id = execution_id;
          trader = trader;
          hop_index = i;
          protocol = step.protocol;
          pool = step.pool;
          token_in = step.token_in;
          token_out = step.token_out;
          amount_in = hop_amount_in;
          amount_out = hop_out;
          version = event_schema_version;
        }))
    pure hop_out

  -- The execution loop, with the rounds left, the index, the amount and the protocols so far.
  unfoldable pub execute_from :
      Address
      → ℕ
      → ℕ
      → List SwapStep
      → ℕ
      → ℕ
      → ℤ
      → List Symbol
      → Contract (State W) RouterError (ℤ × List Symbol)
  execute_from trader last execution_id path zero i hop_amount_in protocols =
      pure (hop_amount_in, protocols)
  execute_from trader last execution_id path (suc rounds) i hop_amount_in protocols = do
    step ← step_at path i
    hop_out ← execute_hop trader last execution_id i step hop_amount_in
    execute_from trader last execution_id path rounds (i + 1) hop_out
        (protocols ++ (step.protocol ∷ []))

  -- The first checks of `swap`: the contract's state, the signature, the amounts, the deadline and the
  -- number of hops.
  unfoldable pub check_terms :
      Address → ℤ → ℤ → ℕ → List SwapStep → Contract (State W) RouterError (Unit {0})
  check_terms trader amount_in amount_out_min deadline path = do
    read_admin
    fail_if (unwrap_or (← gets (λ s. s.paused)) false) RouterError.paused
    require_auth env trader
    fail_if (leb_ℤ amount_in (pos 0)) zero_amount
    fail_if (leb_ℤ amount_out_min (pos 0)) invalid_min_out
    fail_if (ltb deadline env.timestamp) expired
    fail_if (length path == 0) empty_path
    fail_if (ltb max_hops (length path)) too_many_hops

  -- The checks that follow: the route's shape, its protocols, and the trader's balance.
  unfoldable pub check_route :
      Address → Address → Address → ℤ → List SwapStep → Contract (State W) RouterError (Unit {0})
  check_route trader token_in token_out amount_in path = do
    validate_path token_in token_out path
    check_protocols_from (length path) 0 path
    fail_if (ltb_ℤ (← token_balance token_in trader) amount_in) insufficient_balance

  -- The rest of `swap`: pull the input, allocate the execution id, execute, check, record.
  unfoldable pub settlement :
      Address → Address → Address → ℤ → ℤ → List SwapStep → Contract (State W) RouterError ℤ
  settlement trader token_in token_out amount_in amount_out_min path = do
    token_transfer token_in trader env.contract amount_in
    last ← ok_or (checked_pred (length path)) empty_path
    execution_id ← next_nonce
    (amount_out, protocols) ←
        execute_from trader last execution_id path (length path) 0 amount_in []
    fail_if (ltb_ℤ amount_out amount_out_min) insufficient_output
    publish (
        swap_executed (record {
          trader = trader;
          token_in = token_in;
          token_out = token_out;
          amount_in = amount_in;
          amount_out = amount_out;
          protocols = protocols;
          execution_id = execution_id;
          ledger = env.sequence;
          version = event_schema_version;
        }))
    extend_instance
    pure amount_out

  unfoldable pub swap :
      Address → Address → Address → ℤ → ℤ → ℕ → List SwapStep → Contract (State W) RouterError ℤ
  swap trader token_in token_out amount_in amount_out_min deadline path = do
    check_terms trader amount_in amount_out_min deadline path
    check_route trader token_in token_out amount_in path
    settlement trader token_in token_out amount_in amount_out_min path
