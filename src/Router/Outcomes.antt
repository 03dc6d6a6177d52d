-- ===== src/Router/Outcomes.antt =====
-- How `Router::swap` ends (contracts/router/src/lib.rs).
use stellariq_contract.Prelude.{ℕ, ◌^◌, ◌<◌, ◌≡◌, ◌⊎◌, inl, inr, sym, subst, List, ℤ, ◌≤ℤ◌}
use stellariq_contract.Soroban.{Address, Env, Tokens, Outcome, ok, err, trap, bind_cases, ◌>>◌}
use stellariq_contract.Interfaces.{RouterError, SwapStep, Adapters}
use stellariq_contract.Router.Storage.{State}
use stellariq_contract.Router.Swap.{check_terms, check_route, settlement, swap}
use stellariq_contract.Router.Preflight.{
  HasTerms, HasRoute, BadTerms, BadRoute, TermsVerdict, RouteVerdict, check_terms-Verdict,
  check_route-Verdict,
}
use stellariq_contract.Router.Spec.{Fills, final_amount}
use stellariq_contract.Router.Settlement.{
  next_id, settled, Settled, IsExecutionError, settlement-Settled,
}

module _ {W : Type 0} (tokens : Tokens W) (adapters : Adapters W) (env : Env)
    (trader token_in token_out : Address) (amount_in amount_out_min : ℤ) (deadline : ℕ)
    (path : List SwapStep) (s : State W) where
  -- Why `swap` gives up before it has changed anything.
  abbrev pub IsRefused : RouterError → Type 0
  IsRefused e =
      BadTerms tokens adapters env trader amount_in amount_out_min path deadline s e
      ⊎ BadRoute tokens adapters env trader token_in token_out amount_in path s e

  abbrev pub Ends : Outcome RouterError ℤ × State W → Type 0
  Ends (ok out, t) =
      HasTerms tokens adapters env trader amount_in amount_out_min deadline path s
      × HasRoute tokens adapters env trader token_in token_out amount_in path s
      × Settled tokens adapters env trader token_in token_out amount_in amount_out_min path s
          (ok out, t)
  Ends (err e, t) =
      ((t ≡ s) × IsRefused e)
      ⊎ IsExecutionError tokens adapters env trader token_in token_out amount_in amount_out_min path
          e
  Ends (trap, t) = Unit

  with_settlement :
      HasTerms tokens adapters env trader amount_in amount_out_min deadline path s
      → HasRoute tokens adapters env trader token_in token_out amount_in path s
      → (r : Outcome RouterError ℤ × State W)
      → Settled tokens adapters env trader token_in token_out amount_in amount_out_min path s r
      → Ends r
  with_settlement terms route (ok out, t) h = (terms, route, h)
  with_settlement terms route (err e, t) h = inr h
  with_settlement terms route (trap, t) h = tt

  after_terms :
      HasTerms tokens adapters env trader amount_in amount_out_min deadline path s
      → Ends (
          (check_route tokens adapters env trader token_in token_out amount_in path
              >> settlement tokens adapters env trader token_in token_out amount_in amount_out_min
                  path)
            s)
  after_terms terms =
      let settle =
        settlement tokens adapters env trader token_in token_out amount_in amount_out_min path in
      let Verdict = RouteVerdict tokens adapters env trader token_in token_out amount_in path s in
      let verdict =
        check_route-Verdict tokens adapters env trader token_in token_out amount_in path s in
      bind_cases Ends (check_route tokens adapters env trader token_in token_out amount_in path)
        (λ _. settle) s
        (λ a t e.
          let v = subst Verdict e verdict in
          subst (λ u. Ends (settle u)) (sym (v.0))
            (with_settlement terms v.1 (settle s) (
              settlement-Settled tokens adapters env trader token_in token_out amount_in
                amount_out_min path s terms.initialized terms.nonempty v.1.registered)))
        (λ x t e. let v = subst Verdict e verdict in inl (v.0, inr v.1)) (λ t e. tt)

  pub swap-Ends :
      Ends (
        swap tokens adapters env trader token_in token_out amount_in amount_out_min deadline path s)
  unfolding swap
  swap-Ends =
      let Verdict =
        TermsVerdict tokens adapters env trader amount_in amount_out_min path deadline s in
      let verdict =
        check_terms-Verdict tokens adapters env trader amount_in amount_out_min path deadline s in
      let rest =
        check_route tokens adapters env trader token_in token_out amount_in path
        >> settlement tokens adapters env trader token_in token_out amount_in amount_out_min path in
      bind_cases Ends
        (check_terms tokens adapters env trader amount_in amount_out_min deadline path) (λ _. rest)
        s
        (λ a t e.
          let v = subst Verdict e verdict in
          subst (λ u. Ends (rest u)) (sym (v.0)) (after_terms v.1))
        (λ x t e. let v = subst Verdict e verdict in inl (v.0, inl v.1)) (λ t e. tt)

  -- Where `swap` returns an amount, every check has passed, and there is one amount for each hop,
  -- positive and at least the hop's minimum, such that: the amount returned is that of the last hop
  -- and at least the global minimum; the execution id is the old nonce and one, and fits a `u64`; and
  -- of the router's own storage exactly this has changed: the nonce is the execution id, the new
  -- events are the records of all hops in order, chained by their amounts, and the summary after
  -- them, and the instance's life is extended once.
  pub swap_settles :
      (out : ℤ) (t : State W)
      → swap tokens adapters env trader token_in token_out amount_in amount_out_min deadline path s
        ≡ (ok out, t)
      → HasTerms tokens adapters env trader amount_in amount_out_min deadline path s
        × HasRoute tokens adapters env trader token_in token_out amount_in path s
        × ((amounts : List ℤ) × Fills path amounts
            × (out ≡ final_amount amount_in amounts)
            × (amount_out_min ≤ℤ out)
            × (next_id s < 2 ^ 64)
            × (t
                ≡ settled tokens adapters env trader token_in token_out amount_in amount_out_min
                    path s amounts t.world))
  swap_settles out t e = subst Ends e swap-Ends

  -- An error of `swap` other than `SwapFailed`, `InsufficientOutput` and `Overflow` is reported before
  -- anything has changed, even without the host's rollback, and the condition that the error stands
  -- for holds.
  swap_refuses :
      (e : RouterError) (t : State W)
      → swap tokens adapters env trader token_in token_out amount_in amount_out_min deadline path s
        ≡ (err e, t)
      → ¬ IsExecutionError tokens adapters env trader token_in token_out amount_in amount_out_min
          path e
      → (t ≡ s) × IsRefused e
  swap_refuses e t h other = elim (subst Ends h swap-Ends) [
    | inl early ↦ early
    | inr late ↦ absurd (other late)
  ]
