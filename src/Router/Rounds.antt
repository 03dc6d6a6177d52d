-- ===== src/Router/Rounds.antt =====
-- One round of the execution loop of `Router::swap` (contracts/router/src/lib.rs), and its end.
use stellariq_contract.Prelude.{
  ℕ, suc, ◌+◌, ◌≡◌, subst, some, List, [], ◌∷◌, ◌++◌, get_elem?, ℤ, arith,
}
use stellariq_contract.Soroban.{Address, Symbol, Env, Tokens, Contract, ok, ok_or, ◌>>=◌, bind_inv}
use stellariq_contract.Interfaces.{RouterError, empty_path, SwapStep, Adapters}
use stellariq_contract.Router.Storage.{State}
use stellariq_contract.Router.Swap.{execute_hop, execute_from}

module _ {W : Type 0} (tokens : Tokens W) (adapters : Adapters W) (env : Env) (trader : Address)
    (last execution_id : ℕ) (path : List SwapStep) where
  pub loop_step :
      (rounds i : ℕ) (x : SwapStep) (amount : ℤ) (ps : List Symbol) (s : State W)
      {r : ℤ × List Symbol} {t : State W}
      → get_elem? path i ≡ some x
      → execute_from tokens adapters env trader last execution_id path (suc rounds) i amount ps s
        ≡ (ok r, t)
      → (a : ℤ) × (u : State W) × (execute_hop tokens adapters env trader last execution_id i x
            amount s
          ≡ (ok a, u))
        × (execute_from tokens adapters env trader last execution_id path rounds
              (i + 1)
              a
              (ps ++ (x.protocol ∷ []))
              u
            ≡ (ok r, t))
  unfolding execute_from
  loop_step rounds i x amount ps s {r = r} {t = t} e h =
      let next : SwapStep → ℤ → Contract (State W) RouterError (ℤ × List Symbol) = λ y a.
        execute_from tokens adapters env trader last execution_id path rounds (i + 1) a
          (ps ++ (y.protocol ∷ [])) in
      let hop : SwapStep → Contract (State W) RouterError ℤ =
        λ y. execute_hop tokens adapters env trader last execution_id i y amount in
      bind_inv (hop x) (next x) s
        (subst (λ o. (ok_or o empty_path >>= λ y. hop y >>= next y) s ≡ (ok r, t)) e h)

  pub loop_end :
      (i : ℕ) (amount : ℤ) (ps : List Symbol) (s : State W) {r : ℤ × List Symbol} {t : State W}
      → execute_from tokens adapters env trader last execution_id path 0 i amount ps s ≡ (ok r, t)
      → (r.0 ≡ amount) × (s ≡ t)
  unfolding execute_from
  loop_end i amount ps s h = ground arith
