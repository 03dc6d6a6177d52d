-- ===== src/Router/Breakdown.antt =====
-- Why `Router::swap` gives up once it has pulled the input (contracts/router/src/lib.rs).
use stellariq_contract.Prelude.{
  ℕ, zero, suc, ◌-◌, ◌<◌, ◌≤◌, ◌^◌, ◌≡◌, ◌≢◌, ◌⊎◌, inl, inr, subst, none, some, List, [], length,
  IsFrom-start, ℤ, ◌<ℤ◌, Map, refl, arith,
}
use stellariq_contract.Soroban.{
  Address, Symbol, Env, Tokens, Contract, err, ok_or, BindErr-inv, ◌>>=◌,
}
use stellariq_contract.Interfaces.{
  RouterError, empty_path, insufficient_output, overflow, SwapStep, Adapters,
}
use stellariq_contract.Router.Storage.{State, next_nonce}
use stellariq_contract.Router.Swap.{checked_pred, token_transfer, execute_from, settlement}
use stellariq_contract.Router.Spec.{IsRegistered, final_amount}
use stellariq_contract.Router.Settlement.{next_id, finish, with_id, run_hops}
use stellariq_contract.Router.Calls.{transferred, counted, allocated}
use stellariq_contract.Router.Runs.{Runs}
use stellariq_contract.Router.Necessity.{loop-Ran}
use stellariq_contract.Router.Failures.{RunFails, loop-RunFails}

module _ {W : Type 0} (tokens : Tokens W) (adapters : Adapters W) (env : Env)
    (trader token_in token_out : Address) (amount_in amount_out_min : ℤ)
    (path : List SwapStep) where
  transfer_err :
      (token from to : Address) (amount : ℤ) (s t : State W) (e : RouterError)
      → token_transfer tokens adapters env token from to amount s ≢ (err e, t)
  unfolding token_transfer
  transfer_err token from to amount s t e = λ h. ground arith

  pred_err :
      (n : ℕ) (s t : State W) (e : RouterError)
      → 0 < n
      → ok_or (checked_pred n) empty_path s ≢ (err e, t)
  pred_err zero s t e some_hops = absurd (omega (arith, some_hops))
  pred_err (suc n) s t e some_hops = λ h. cc

  nonce_err :
      (s t : State W) (e : RouterError)
      → s.admin ≢ none
      → next_nonce s ≡ (err e, t)
      → (e ≡ overflow) × (2 ^ 64 ≤ next_id s)
  unfolding next_nonce
  nonce_err s t e set h = ground arith

  finish_err :
      (execution_id : ℕ) (r : ℤ × List Symbol) (s t : State W) (e : RouterError)
      → finish tokens adapters env trader token_in token_out amount_in amount_out_min path
          execution_id r s
        ≡ (err e, t)
      → (e ≡ insufficient_output) × (r.0 <ℤ amount_out_min)
  finish_err execution_id r s t e h = ground arith

  -- The hops go through, from the pulled input on, but the last amount is below the global minimum.
  abbrev pub IsTooLittle : Map Symbol Address → W → RouterError → Type 0
  IsTooLittle protocols pulled e =
      (e ≡ insufficient_output)
      × (amounts : List ℤ) × (w : W) × Runs tokens adapters env protocols trader (length path - 1) 0
          path amount_in pulled amounts w
      × (final_amount amount_in amounts <ℤ amount_out_min)

  -- A hop fails, or the last amount is too small.
  abbrev pub IsUnfilled : Map Symbol Address → W → RouterError → Type 0
  IsUnfilled protocols pulled e =
      RunFails tokens adapters env protocols trader (length path - 1) 0 path amount_in pulled e
      ⊎ IsTooLittle protocols pulled e

  -- Why `swap` gives up once it has pulled the input: no `u64` holds the next execution id, or the
  -- route is not filled.
  abbrev pub IsDiagnosed : State W → RouterError → Type 0
  IsDiagnosed s e =
      (pulled : W) × (tokens.transfer s.world env.contract token_in trader env.contract amount_in
        ≡ some pulled)
      × (((e ≡ overflow) × (2 ^ 64 ≤ next_id s)) ⊎ IsUnfilled s.protocols pulled e)

  with_id-IsUnfilled :
      (last id : ℕ) (s t : State W) (e : RouterError)
      → length path ≡ suc last
      → IsRegistered s.protocols path
      → with_id tokens adapters env trader token_in token_out amount_in amount_out_min path last id
          s
        ≡ (err e, t)
      → IsUnfilled s.protocols s.world e
  with_id-IsUnfilled last id s t e hops registered h =
      let at : last ≡ length path - 1 = ground (arith, hops) in
      elim (BindErr-inv
        (execute_from tokens adapters env trader last id path (length path) 0 amount_in [])
        (finish tokens adapters env trader token_in token_out amount_in amount_out_min path id) s
        h) [
          | inl failed ↦ inl (
              subst
                (λ n. RunFails tokens adapters env s.protocols trader n 0 path amount_in s.world e)
                at
                (loop-RunFails tokens adapters env trader last id path s.protocols path 0 amount_in
                  [] s t e refl (IsFrom-start path) registered failed))
          | inr (r, u, ran, short) ↦
              let (amounts, runs, total) =
                loop-Ran tokens adapters env trader last id path s.protocols path 0 amount_in [] s r
                  u refl (IsFrom-start path) ran in
              let (named, less) = finish_err id r u t e short in
              inr (
                named,
                amounts,
                u.world,
                subst
                    (λ n.
                      Runs tokens adapters env s.protocols trader n 0 path amount_in s.world amounts
                        u.world)
                    at runs,
                subst (λ z. z <ℤ amount_out_min) total less,
              )
        ]

  run_hops-Diagnosed :
      (last : ℕ) (s t : State W) (e : RouterError)
      → s.admin ≢ none
      → length path ≡ suc last
      → IsRegistered s.protocols path
      → run_hops tokens adapters env trader token_in token_out amount_in amount_out_min path last s
        ≡ (err e, t)
      → ((e ≡ overflow) × (2 ^ 64 ≤ next_id s)) ⊎ IsUnfilled s.protocols s.world e
  run_hops-Diagnosed last s t e set hops registered h =
      let continue =
        with_id tokens adapters env trader token_in token_out amount_in amount_out_min path last in
      elim (BindErr-inv next_nonce continue s h) [
        | inl full ↦ inl (nonce_err s t e set full)
        | inr (id, u, given, more) ↦
            let (_, same) = allocated s id u set given in
            inr (
              with_id-IsUnfilled last id (record s { nonce = some (next_id s) }) t e hops registered
                (subst (λ z. continue id z ≡ (err e, t)) same more))
      ]

  pub settlement-Diagnosed :
      (s t : State W) (e : RouterError)
      → s.admin ≢ none
      → 0 < length path
      → IsRegistered s.protocols path
      → settlement tokens adapters env trader token_in token_out amount_in amount_out_min path s
        ≡ (err e, t)
      → IsDiagnosed s e
  unfolding settlement
  settlement-Diagnosed s t e set some_hops registered h =
      let pull = token_transfer tokens adapters env token_in trader env.contract amount_in in
      let hops =
        run_hops tokens adapters env trader token_in token_out amount_in amount_out_min path in
      let rest : Contract (State W) RouterError ℤ =
        ok_or (checked_pred (length path)) empty_path >>= hops in
      elim (BindErr-inv pull (λ _. rest) s h) [
        | inl bad ↦ absurd (transfer_err token_in trader env.contract amount_in s t e bad)
        | inr (x, u, done, more) ↦
            let (w, moved, same) =
              transferred tokens adapters env token_in trader env.contract amount_in s {x = x}
                done in
            let paid : State W = record s { world = w } in
            elim (BindErr-inv (ok_or (checked_pred (length path)) empty_path) hops paid
              (subst (λ z. rest z ≡ (err e, t)) same more)) [
                | inl bad ↦ absurd (pred_err (length path) paid t e some_hops bad)
                | inr (last, v, counts, run) ↦
                    let (many, stays) = counted (length path) last paid v counts in
                    (
                      w,
                      moved,
                      run_hops-Diagnosed last paid t e set many registered
                          (subst (λ z. hops last z ≡ (err e, t)) stays run),
                    )
              ]
      ]
