-- ===== src/Router/Exactness.antt =====
-- When `Router::swap` returns, and what (contracts/router/src/lib.rs): `Router.Completion` and
-- `Router.Necessity` put together.
use stellariq_contract.Prelude.{
  ℕ, ◌-◌, ◌^◌, ◌<◌, ◌≡◌, ◌↔◌, sym, subst, ◌∙◌, ap, some, List, length, ℤ, ◌≤ℤ◌,
}
use mathlib.Core.Path.{ap₂}
use stellariq_contract.Soroban.{Address, Env, Tokens, Outcome, ok}
use stellariq_contract.Interfaces.{RouterError, SwapStep, Adapters}
use stellariq_contract.Router.Storage.{State}
use stellariq_contract.Router.Swap.{swap}
use stellariq_contract.Router.Spec.{final_amount}
use stellariq_contract.Router.Preflight.{HasTerms, HasRoute}
use stellariq_contract.Router.Settlement.{next_id, settled}
use stellariq_contract.Router.Outcomes.{swap_settles}
use stellariq_contract.Router.Completion.{swap_returns}
use stellariq_contract.Router.Runs.{Runs}
use stellariq_contract.Router.Necessity.{swap_needs}

module _ {W : Type 0} (tokens : Tokens W) (adapters : Adapters W) (env : Env)
    (trader token_in token_out : Address) (amount_in amount_out_min : ℤ) (deadline : ℕ)
    (path : List SwapStep) (s : State W) where
  -- All checks pass, the input is pulled, a `u64` holds the next execution id, the hops go through with these
  -- amounts, the last covers the global minimum and is what the swap returns, and the storage is what the record describes.
  pub record Succeeds (out : ℤ) (t : State W) : Type 0 where
    pub pulled : W
    pub amounts : List ℤ
    pub terms : HasTerms tokens adapters env trader amount_in amount_out_min deadline path s
    pub route : HasRoute tokens adapters env trader token_in token_out amount_in path s
    pub moved :
        tokens.transfer s.world env.contract token_in trader env.contract amount_in ≡ some pulled
    pub fits : next_id s < 2 ^ 64
    pub runs :
        Runs tokens adapters env s.protocols trader
          (length path - 1)
          0
          path
          amount_in
          pulled
          amounts
          t.world
    pub enough : amount_out_min ≤ℤ final_amount amount_in amounts
    pub total : out ≡ final_amount amount_in amounts
    pub recorded :
        t
        ≡ settled tokens adapters env trader token_in token_out amount_in amount_out_min path s
            amounts t.world

  abbrev run : Outcome RouterError ℤ × State W
  run = swap tokens adapters env trader token_in token_out amount_in amount_out_min deadline path s

  succeeds : (out : ℤ) (t : State W) → run ≡ (ok out, t) → Succeeds out t
  succeeds out t done =
      let (terms, route, (_, _, _, covered, fits, _)) =
        swap_settles tokens adapters env trader token_in token_out amount_in amount_out_min deadline
          path s out t done in
      let (pulled, amounts, moved, runs, total) =
        swap_needs tokens adapters env trader token_in token_out amount_in amount_out_min deadline
          path s out t done in
      let enough = subst (λ z. amount_out_min ≤ℤ z) total covered in
      let again =
        swap_returns tokens adapters env trader token_in token_out amount_in amount_out_min deadline
          path s amounts pulled t.world terms route moved fits runs enough in
      record {
        pulled = pulled;
        amounts = amounts;
        terms = terms;
        route = route;
        moved = moved;
        fits = fits;
        runs = runs;
        enough = enough;
        total = total;
        recorded = ap (λ z. z.1) (sym done ∙ again);
      }

  -- `swap` returns an amount, and leaves a storage, exactly where all checks pass, the pull of the input goes
  -- through, a `u64` holds the next execution id, the hops go through in order with some amounts, the last
  -- of them covers the global minimum and is the amount returned, and the storage is the one that the record of
  -- these amounts describes.
  pub swap_exactly :
      (out : ℤ) (t : State W)
      → (swap tokens adapters env trader token_in token_out amount_in amount_out_min deadline path s
          ≡ (ok out, t))
        ↔ Succeeds out t
  swap_exactly out t = (
    succeeds out t,
    λ h.
        swap_returns tokens adapters env trader token_in token_out amount_in amount_out_min deadline
          path s h.amounts h.pulled t.world h.terms h.route h.moved h.fits h.runs h.enough
        ∙ ap₂ (λ a b. (ok a, b)) (sym h.total) (sym h.recorded),
  )
