-- ===== src/Router/Diagnosis.antt =====
-- What every error of `Router::swap` stands for (contracts/router/src/lib.rs).
use stellariq_contract.Prelude.{ℕ, ◌≡◌, ◌⊎◌, inl, inr, subst, List, ℤ}
use stellariq_contract.Soroban.{Address, Env, Tokens, err, BindErr-inv, ◌>>◌}
use stellariq_contract.Interfaces.{RouterError, SwapStep, Adapters}
use stellariq_contract.Router.Storage.{State}
use stellariq_contract.Router.Swap.{check_terms, check_route, settlement, swap}
use stellariq_contract.Router.Preflight.{
  HasTerms, HasRoute, TermsVerdict, RouteVerdict, check_terms-Verdict, check_route-Verdict,
}
use stellariq_contract.Router.Outcomes.{IsRefused}
use stellariq_contract.Router.Breakdown.{IsDiagnosed, settlement-Diagnosed}

module _ {W : Type 0} (tokens : Tokens W) (adapters : Adapters W) (env : Env)
    (trader token_in token_out : Address) (amount_in amount_out_min : ℤ) (deadline : ℕ)
    (path : List SwapStep) (s t : State W) (e : RouterError) where
  abbrev Terms : Type 0
  Terms = HasTerms tokens adapters env trader amount_in amount_out_min deadline path s

  abbrev Route : Type 0
  Route = HasRoute tokens adapters env trader token_in token_out amount_in path s

  -- Every error of `swap` is explained. Either nothing has changed and the check that the error stands for
  -- fails; or all checks pass, the input is pulled, and: no `u64` holds the next execution id, and the
  -- error is Overflow; or the hops go through up to one where the adapter gives no value, a value that is
  -- not positive, or a delivery below its report or beyond an `i128`, and the error is SwapFailed, or below the step's minimum,
  -- and the error is InsufficientOutput; or all hops go through, but the last amount is below the global minimum,
  -- and the error is InsufficientOutput.
  pub swap-IsDiagnosed :
      swap tokens adapters env trader token_in token_out amount_in amount_out_min deadline path s
        ≡ (err e, t)
      → ((t ≡ s)
          × IsRefused tokens adapters env trader token_in token_out amount_in amount_out_min
              deadline path s e)
        ⊎ (Terms
            × Route
            × IsDiagnosed tokens adapters env trader token_in token_out amount_in amount_out_min
                path s e)
  unfolding swap
  swap-IsDiagnosed h =
      let settle =
        settlement tokens adapters env trader token_in token_out amount_in amount_out_min path in
      let routing = check_route tokens adapters env trader token_in token_out amount_in path in
      let terms =
        check_terms-Verdict tokens adapters env trader amount_in amount_out_min path deadline s in
      let routes =
        check_route-Verdict tokens adapters env trader token_in token_out amount_in path s in
      elim (BindErr-inv
        (check_terms tokens adapters env trader amount_in amount_out_min deadline path)
        (λ _. routing >> settle) s h) [
          | inl failed ↦
              let v =
                subst
                  (TermsVerdict tokens adapters env trader amount_in amount_out_min path deadline s)
                  failed terms in
              inl (v.0, inl v.1)
          | inr (_, u, passed, more) ↦
              let v =
                subst
                  (TermsVerdict tokens adapters env trader amount_in amount_out_min path deadline s)
                  passed terms in
              elim (BindErr-inv routing (λ _. settle) s
                (subst (λ z. (routing >> settle) z ≡ (err e, t)) v.0 more)) [
                  | inl failed ↦
                      let r =
                        subst
                          (RouteVerdict tokens adapters env trader token_in token_out amount_in path
                            s)
                          failed routes in
                      inl (r.0, inr r.1)
                  | inr (_, w, found, last) ↦
                      let r =
                        subst
                          (RouteVerdict tokens adapters env trader token_in token_out amount_in path
                            s)
                          found routes in
                      inr (
                        v.1,
                        r.1,
                        settlement-Diagnosed tokens adapters env trader token_in token_out amount_in
                            amount_out_min path s t e v.1.initialized v.1.nonempty r.1.registered
                            (subst (λ z. settle z ≡ (err e, t)) r.0 last),
                      )
                ]
        ]
