-- ===== src/Router/Preflight.antt =====
-- The checks of `Router::swap` before any funds move (contracts/router/src/lib.rs): what each verdict
-- means, and that none of them changes anything.
use stellariq_contract.Prelude.{
  ℕ, ◌≤◌, ◌<◌, ◌≡◌, ◌≢◌, true, false, Option, none, some, List, [], length, ℤ, pos, ◌≤ℤ◌, ◌<ℤ◌,
  arith,
}
use stellariq_contract.Soroban.{Address, Env, Tokens, Outcome, ok, err, trap, unwrap_or}
use stellariq_contract.Interfaces.{
  RouterError, not_initialized, zero_amount, expired, empty_path, too_many_hops, protocol_not_found,
  insufficient_balance, invalid_min_out, discontinuous_path, SwapStep, Adapters, max_hops,
}
use stellariq_contract.Router.Storage.{State}
use stellariq_contract.Router.Swap.{check_terms, check_route}
use stellariq_contract.Router.Spec.{IsRoute, IsRegistered, first_fault}
use stellariq_contract.Router.Loops.{validate_path-eq, check_protocols_lem, first_fault-cases}

-- A balance that could be read covers an amount, or falls short of it.
abbrev pub Covers : Option ℤ → ℤ → Type 0
Covers none amount = ⊥
Covers (some b) amount = amount ≤ℤ b

abbrev pub IsShort : Option ℤ → ℤ → Type 0
IsShort none amount = ⊥
IsShort (some b) amount = b <ℤ amount

module _ {W : Type 0} (tokens : Tokens W) (adapters : Adapters W) (env : Env) where
  -- What must hold of the call itself.
  pub record HasTerms (trader : Address) (amount_in amount_out_min : ℤ) (deadline : ℕ)
      (path : List SwapStep) (s : State W) : Type 0 where
    pub initialized : s.admin ≢ none
    pub live : unwrap_or s.paused false ≡ false
    pub authorized : env.signed trader ≡ true
    pub amount_positive : pos 0 <ℤ amount_in
    pub minimum_positive : pos 0 <ℤ amount_out_min
    pub in_time : env.timestamp ≤ deadline
    pub nonempty : 0 < length path
    pub bounded : length path ≤ max_hops

  -- What must hold of the route and the trader's funds.
  pub record HasRoute (trader token_in token_out : Address) (amount_in : ℤ) (path : List SwapStep)
      (s : State W) : Type 0 where
    pub route : IsRoute token_in token_out path
    pub registered : IsRegistered s.protocols path
    pub funded : Covers (tokens.balance s.world token_in trader) amount_in

  module _ (trader : Address) (amount_in amount_out_min : ℤ) (path : List SwapStep) where
    -- Why one of the first checks fails, by the error that it reports.
    abbrev pub BadTerms : ℕ → State W → RouterError → Type 0
    BadTerms deadline s not_initialized = s.admin ≡ none
    BadTerms deadline s RouterError.paused = unwrap_or s.paused false ≡ true
    BadTerms deadline s zero_amount = amount_in ≤ℤ pos 0
    BadTerms deadline s invalid_min_out = amount_out_min ≤ℤ pos 0
    BadTerms deadline s expired = deadline < env.timestamp
    BadTerms deadline s empty_path = path ≡ []
    BadTerms deadline s too_many_hops = max_hops < length path
    BadTerms deadline s _ = ⊥

    abbrev pub TermsVerdict : ℕ → State W → Outcome RouterError (Unit {0}) × State W → Type 0
    TermsVerdict deadline s (ok _, t) =
        (t ≡ s) × HasTerms trader amount_in amount_out_min deadline path s
    TermsVerdict deadline s (err e, t) = (t ≡ s) × BadTerms deadline s e
    TermsVerdict deadline s (trap, t) = (t ≡ s) × (env.signed trader ≡ false)

    pub check_terms-Verdict :
        (deadline : ℕ) (s : State W)
        → TermsVerdict deadline s
            (check_terms tokens adapters env trader amount_in amount_out_min deadline path s)
    unfolding check_terms
    check_terms-Verdict deadline s = ground arith

  module _ (trader token_in token_out : Address) (amount_in : ℤ) (path : List SwapStep) where
    -- Why one of the later checks fails.
    abbrev pub BadRoute : State W → RouterError → Type 0
    BadRoute s invalid_min_out = first_fault token_in token_out path ≡ some invalid_min_out
    BadRoute s discontinuous_path = first_fault token_in token_out path ≡ some discontinuous_path
    BadRoute s protocol_not_found = ¬ IsRegistered s.protocols path
    BadRoute s insufficient_balance = IsShort (tokens.balance s.world token_in trader) amount_in
    BadRoute s _ = ⊥

    abbrev pub RouteVerdict : State W → Outcome RouterError (Unit {0}) × State W → Type 0
    RouteVerdict s (ok _, t) = (t ≡ s) × HasRoute trader token_in token_out amount_in path s
    RouteVerdict s (err e, t) = (t ≡ s) × BadRoute s e
    RouteVerdict s (trap, t) = (t ≡ s) × (tokens.balance s.world token_in trader ≡ none)

    pub check_route-Verdict :
        (s : State W)
        → RouteVerdict s
            (check_route tokens adapters env trader token_in token_out amount_in path s)
    unfolding check_route
    check_route-Verdict s = ground (
      arith,
      validate_path-eq path s token_in token_out,
      check_protocols_lem path s,
      first_fault-cases token_in token_out path,
    )

-- The checks pass wherever their conditions hold.
module _ {W : Type 0} (tokens : Tokens W) (adapters : Adapters W) (env : Env) (trader : Address)
    (path : List SwapStep) (s : State W) where
  pub check_terms_pass :
      (amount_in amount_out_min : ℤ) (deadline : ℕ)
      → HasTerms tokens adapters env trader amount_in amount_out_min deadline path s
      → check_terms tokens adapters env trader amount_in amount_out_min deadline path s ≡ (ok tt, s)
  unfolding check_terms
  check_terms_pass amount_in amount_out_min deadline h = ground arith

  pub check_route_pass :
      (token_in token_out : Address) (amount_in : ℤ)
      → HasRoute tokens adapters env trader token_in token_out amount_in path s
      → check_route tokens adapters env trader token_in token_out amount_in path s ≡ (ok tt, s)
  unfolding check_route
  check_route_pass token_in token_out amount_in h = ground (
    arith,
    validate_path-eq path s token_in token_out,
    check_protocols_lem path s,
    first_fault-cases token_in token_out path,
  )
