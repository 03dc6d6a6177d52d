-- ===== src/Router/MeteredChecks.antt =====
-- `Router::swap` (contracts/router/src/lib.rs) among contracts that count the calls of adapters: what
-- comes before the execution loop and after it.
use stellariq_contract.Prelude.{
  ℕ, zero, suc, ◌+◌, refl, List, length, not, false, ltb, ltb_ℤ, leb_ℤ, pos, ◌==◌, ℤ, get_elem?,
  arith,
}
use stellariq_contract.Soroban.{
  Address, Symbol, Env, Tokens, ◌>>=◌, fail_if, has, unwrap_or, require_auth,
}
use stellariq_contract.Interfaces.{
  RouterError, SwapStep, Adapters, max_hops, protocol_not_found, empty_path, discontinuous_path,
  invalid_min_out, too_many_hops, expired, zero_amount, insufficient_balance,
}
use stellariq_contract.Router.Storage.{State, next_nonce, read_admin}
use stellariq_contract.Router.Swap.{
  validate_from, validate_path, check_protocols_from, token_balance, check_terms, check_route,
}
use stellariq_contract.Router.Settlement.{finish}
use stellariq_contract.Router.Tracking.{
  Tracks-pure, Tracks-ok_or, Tracks-fail_if, Tracks-gets, Tracks, Tracks-bind,
}
use stellariq_contract.Router.Metering.{meter, unmetered, metered, entry-Tracks}

module _ {W : Type 0} (tokens : Tokens W) (adapters : Adapters W) (env : Env) where
  validate_from-Tracks :
      (rounds i : ℕ) (cursor token_out : Address) (path : List SwapStep)
      → Tracks meter 0
          (validate_from {W = W} rounds i cursor token_out path)
          (validate_from {W = W × ℕ} rounds i cursor token_out path)
  unfolding validate_from
  validate_from-Tracks zero i cursor token_out path =
      Tracks-fail_if (not (cursor == token_out)) discontinuous_path
  validate_from-Tracks (suc rounds) i cursor token_out path =
      Tracks-bind refl (Tracks-ok_or (get_elem? path i) empty_path) λ step.
        Tracks-bind refl (Tracks-fail_if (not (step.token_in == cursor)) discontinuous_path) λ _.
          Tracks-bind refl (Tracks-fail_if (ltb_ℤ step.amount_out_min (pos 0)) invalid_min_out)
            λ _. validate_from-Tracks rounds (i + 1) step.token_out token_out path

  check_protocols_from-Tracks :
      (rounds i : ℕ) (path : List SwapStep)
      → Tracks meter 0
          (check_protocols_from {W = W} rounds i path)
          (check_protocols_from {W = W × ℕ} rounds i path)
  unfolding check_protocols_from
  check_protocols_from-Tracks zero i path = Tracks-pure tt
  check_protocols_from-Tracks (suc rounds) i path =
      Tracks-bind refl (Tracks-ok_or (get_elem? path i) empty_path) λ pre.
        Tracks-bind refl (entry-Tracks tokens adapters env pre.protocol) λ found.
          Tracks-bind refl (Tracks-fail_if (not (has found)) protocol_not_found)
            λ _. check_protocols_from-Tracks rounds (i + 1) path

  read_admin-Tracks : Tracks meter 0 (read_admin {W = W}) (read_admin {W = W × ℕ})
  read_admin-Tracks =
      Tracks-bind refl (Tracks-gets (λ s. s.admin) (λ s. s.admin) λ s n. refl)
        λ admin. Tracks-ok_or admin RouterError.not_initialized

  require_auth-Tracks :
      (a : Address)
      → Tracks meter 0
          (require_auth {S = State W} {E = RouterError} env a)
          (require_auth {S = State (W × ℕ)} env a)
  require_auth-Tracks a = record {
    run = λ s n. (n, ground arith, omega arith, ground arith, λ r. ground arith);
  }

  -- The last check of the route: the trader's balance.
  covers-Tracks :
      (token holder : Address) (amount : ℤ)
      → Tracks meter 0
          (token_balance tokens adapters env token holder >>= λ b.
            fail_if (ltb_ℤ b amount) insufficient_balance)
          (token_balance (unmetered tokens) (metered adapters) env token holder >>= λ b.
            fail_if (ltb_ℤ b amount) insufficient_balance)
  covers-Tracks token holder amount = record {
    run = λ s n. (n, ground arith, omega arith, ground arith, λ r. ground arith);
  }

  pub next_nonce-Tracks : Tracks meter 0 (next_nonce {W = W}) (next_nonce {W = W × ℕ})
  unfolding next_nonce
  next_nonce-Tracks = record {
    run = λ s n. (n, ground arith, omega arith, ground arith, λ r. ground arith);
  }

  module _ (trader token_in token_out : Address) (amount_in amount_out_min : ℤ) (deadline : ℕ)
      (path : List SwapStep) where
    pub check_terms-Tracks :
        Tracks meter 0
          (check_terms tokens adapters env trader amount_in amount_out_min deadline path)
          (check_terms
            (unmetered tokens)
            (metered adapters)
            env
            trader
            amount_in
            amount_out_min
            deadline
            path)
    unfolding check_terms
    check_terms-Tracks = Tracks-bind refl read_admin-Tracks λ _.
        Tracks-bind refl (Tracks-gets (λ s. s.paused) (λ s. s.paused) λ s n. refl) λ halted.
          Tracks-bind refl (Tracks-fail_if (unwrap_or halted false) RouterError.paused) λ _.
            Tracks-bind refl (require_auth-Tracks trader) λ _.
              Tracks-bind refl (Tracks-fail_if (leb_ℤ amount_in (pos 0)) zero_amount) λ _.
                Tracks-bind refl (Tracks-fail_if (leb_ℤ amount_out_min (pos 0)) invalid_min_out)
                  λ _. Tracks-bind refl (Tracks-fail_if (ltb deadline env.timestamp) expired) λ _.
                    Tracks-bind refl (Tracks-fail_if (length path == 0) empty_path)
                      λ _. Tracks-fail_if (ltb max_hops (length path)) too_many_hops

    pub check_route-Tracks :
        Tracks meter 0 (check_route tokens adapters env trader token_in token_out amount_in path) (
          check_route
            (unmetered tokens)
            (metered adapters)
            env
            trader
            token_in
            token_out
            amount_in
            path)
    unfolding check_route validate_path
    check_route-Tracks =
        Tracks-bind refl (validate_from-Tracks (length path) 0 token_in token_out path) λ _.
          Tracks-bind refl (check_protocols_from-Tracks (length path) 0 path)
            λ _. covers-Tracks token_in trader amount_in

    pub finish-Tracks :
        (execution_id : ℕ) (r : ℤ × List Symbol)
        → Tracks meter 0
            (finish tokens adapters env trader token_in token_out amount_in amount_out_min path
              execution_id r)
            (finish
              (unmetered tokens)
              (metered adapters)
              env
              trader
              token_in
              token_out
              amount_in
              amount_out_min
              path
              execution_id
              r)
    finish-Tracks execution_id (amount_out, protocols) = record {
      run = λ s n. (n, ground arith, omega arith, ground arith, λ r. ground arith);
    }
