-- ===== src/Router/CallCount.antt =====
-- How many adapter calls go with each outcome of `Router::swap` (contracts/router/src/lib.rs), and
-- which errors come from the execution loop.
use stellariq_contract.Prelude.{ℕ, ◌+◌, ◌≤◌, ◌≡◌, ◌⊎◌, List, [], length, ℤ, arith, IsFrom-start}
use stellariq_contract.Soroban.{
  Address, Symbol, Env, Tokens, Contract, Outcome, ok, err, trap, ok_or, ◌>>=◌,
}
use stellariq_contract.Interfaces.{
  RouterError, swap_failed, insufficient_output, empty_path, SwapStep, Adapters, max_hops,
}
use stellariq_contract.Router.Storage.{State}
use stellariq_contract.Router.Swap.{checked_pred, execute_from, check_route, settlement}
use stellariq_contract.Router.Spec.{IsRegistered}
use stellariq_contract.Router.Hops.{Executed, execute_from-Executed}
use stellariq_contract.Router.Settlement.{finish, with_id, run_hops}
use stellariq_contract.Router.Tracking.{Returned}
use stellariq_contract.Router.FirstCall.{Called}

-- What an outcome says of the number of adapter calls, for a route of so many hops: one for each hop
-- where the swap returns; none before an error of a check; at least one before an error on the way.
abbrev pub CallsFor : ℕ → Outcome RouterError ℤ → ℕ → Type 0
CallsFor hops (ok out) calls = (calls ≡ hops) × (calls ≤ max_hops)
CallsFor hops (err swap_failed) calls = (1 ≤ calls) × (calls ≤ hops) × (calls ≤ max_hops)
CallsFor hops (err insufficient_output) calls = (1 ≤ calls) × (calls ≤ hops) × (calls ≤ max_hops)
CallsFor hops (err e) calls = calls ≡ 0
CallsFor hops trap calls = (calls ≤ hops) × (calls ≤ max_hops)

-- An error that is reported before the execution loop.
abbrev pub IsEarly : RouterError → Type 0
IsEarly swap_failed = ⊥
IsEarly insufficient_output = ⊥
IsEarly e = Unit

pub none_made : (hops : ℕ) (e : RouterError) → IsEarly e → CallsFor hops (err e) 0
none_made hops e early = ground arith

-- From the execution loop on, only two errors are left.
abbrev pub OnTheWay : Outcome RouterError ℤ → Type 0
OnTheWay (err e) = (e ≡ swap_failed) ⊎ (e ≡ insufficient_output)
OnTheWay _ = Unit

-- The rest of `swap` after each of its first steps.
module _ {W : Type 0} (tokens : Tokens W) (adapters : Adapters W) (env : Env)
    (trader token_in token_out : Address) (amount_in amount_out_min : ℤ)
    (path : List SwapStep) where
  abbrev pub after_route : Unit {0} → Contract (State W) RouterError ℤ
  after_route _ =
      settlement tokens adapters env trader token_in token_out amount_in amount_out_min path

  abbrev pub after_terms : Unit {0} → Contract (State W) RouterError ℤ
  after_terms _ =
      check_route tokens adapters env trader token_in token_out amount_in path >>= after_route

  abbrev pub after_pull : Unit {0} → Contract (State W) RouterError ℤ
  after_pull _ =
      ok_or (checked_pred (length path)) empty_path
      >>= run_hops tokens adapters env trader token_in token_out amount_in amount_out_min path

  finish-OnTheWay :
      (last execution_id : ℕ) (s : State W) (run : Outcome RouterError (ℤ × List Symbol) × State W)
      → Executed tokens adapters env trader last execution_id 0 path amount_in [] s run
      → OnTheWay
          (((λ _. run)
              >>= finish tokens adapters env trader token_in token_out amount_in amount_out_min path
                  execution_id)
            s).0
  finish-OnTheWay last execution_id s (ok (a, protocols), t) h = ground arith
  finish-OnTheWay last execution_id s (err e, t) h = h
  finish-OnTheWay last execution_id s (trap, t) h = tt

  pub with_id-OnTheWay :
      (last execution_id : ℕ) (s : State W)
      → IsRegistered s.protocols path
      → OnTheWay
          (with_id tokens adapters env trader token_in token_out amount_in amount_out_min path last
            execution_id s).0
  with_id-OnTheWay last execution_id s h =
      finish-OnTheWay last execution_id s
        (execute_from tokens adapters env trader last execution_id path (length path) 0 amount_in []
          s)
        (execute_from-Executed tokens adapters env trader last execution_id path path 0 amount_in []
          s (IsFrom-start path) h)

pub CallsFor-bounded :
    (hops c : ℕ) (r : Outcome RouterError ℤ)
    → hops ≤ max_hops
    → OnTheWay r
    → c ≤ 0 + hops
    → (Returned r → c ≡ 0 + hops)
    → Called r 0 c
    → CallsFor hops r c
CallsFor-bounded hops c (ok a) few h most all one = (omega (arith, all tt), omega arith)
CallsFor-bounded hops c (err e) few h most all one = ground arith
CallsFor-bounded hops c trap few h most all one = (omega arith, omega arith)
