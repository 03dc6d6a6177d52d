-- ===== src/Composition/Fulfilment.antt =====
-- A swap through the test adapter goes through (contracts/router/src/lib.rs, `Router::swap`, and
-- contracts/test-adapter/src/lib.rs, `TestAdapter::swap`), where the adapter offers and stocks the route.
use stellariq_contract.Prelude.{
  ℕ, ◌+◌, ◌-◌, ◌<◌, ◌≡◌, ◌≢◌, sym, subst, none, some, List, [], ◌∷◌, length, ◌==◌, if◌then◌else◌, ℤ,
  pos, ◌≤ℤ◌, ◌<ℤ◌, Map, ◌^◌, arith,
}
use stellariq_contract.Soroban.{Address, Symbol, Env, Tokens, ok}
use stellariq_contract.Soroban.Sep41.{when, IsLedger, IsPaying}
use stellariq_contract.Interfaces.{SwapStep}
use stellariq_contract.TestAdapter
use stellariq_contract.Router
use stellariq_contract.Router.Spec.{IsRoute, Fills, final_amount}
use stellariq_contract.Router.Preflight.{HasTerms, HasRoute}
use stellariq_contract.Router.Settlement.{next_id, settled}
use stellariq_contract.Router.Completion.{swap_returns}
use stellariq_contract.Router.Runs.{Runs, arrived, hop}
use stellariq_contract.Composition.Wiring.{tokens_below, test_adapters}
use stellariq_contract.Composition.Service.{at_world, hop_served, transfers}
use stellariq_contract.Composition.Stock.{
  demand, AtPrices, IsOpen, demand_not_negative, stock_for, stock_rest,
}
use stellariq_contract.Soroban.Payments.{never_falls, receives, covered, weaken, no_less}

module _ {W : Type 0} (tokens : Tokens W) (adapter_env : Env) (funds : W → Address → Address → ℤ)
    (Listed : Address → Type 0) (ledger : IsLedger tokens funds)
    (paying : IsPaying tokens funds Listed) (env : Env) (trader : Address)
    (apart : env.contract ≢ adapter_env.contract)
    (trader_apart : trader ≢ adapter_env.contract) where
  -- Before a step, the router holds its input.
  abbrev IsHeld : Address → ℤ → W → List SwapStep → Type 0
  IsHeld token amount m [] = Unit
  IsHeld token amount m (_ ∷ _) = amount ≤ℤ funds m token env.contract

  -- What a step yields is there for the next.
  passed_on :
      (i last : ℕ) (path : List SwapStep) (x : SwapStep) (a : ℤ) (m : W)
      → i + length (x ∷ path) ≡ last + 1
      → a ≤ℤ funds m x.token_out (if i == last then trader else env.contract)
      → IsHeld x.token_out a m path
  passed_on i last [] x a m at got = tt
  passed_on i last (y ∷ path) x a m at got = ground arith

  module _ (base : TestAdapter.State W) (protocols : Map Symbol Address) (last : ℕ)
      (set : base.admin ≢ none) where
    Runs-served :
        (i : ℕ) (token_in token_out : Address) (path : List SwapStep) (amount : ℤ)
        (amounts : List ℤ) (m : W)
        → i + length path ≡ last + 1
        → IsRoute token_in token_out path
        → IsOpen protocols adapter_env.contract Listed path
        → AtPrices base path amount amounts
        → Fills path amounts
        → ((u : Address) → demand path amounts u ≤ℤ funds m u adapter_env.contract)
        → pos 0 <ℤ amount
        → IsHeld token_in amount m path
        → (m' : W) × Runs
            (tokens_below tokens)
            (test_adapters tokens adapter_env)
            env
            protocols
            trader
            last
            i
            path
            amount
            (at_world tokens adapter_env base m)
            amounts
            (at_world tokens adapter_env base m')
    Runs-served i token_in token_out [] amount [] m at route listed prices fills stock positive
          held =
        (m, arrived)
    Runs-served i token_in token_out [] amount (a ∷ amounts) m at route listed prices fills stock
          positive held =
        absurd fills
    Runs-served i token_in token_out (x ∷ path) amount [] m at route listed prices fills stock
          positive held =
        absurd fills
    Runs-served i token_in token_out (x ∷ path) amount (a ∷ amounts) m at (from, _, route)
          (known, in_listed, out_listed, listed) (offered, prices) (gain, enough, fills) stock
          positive held =
        let ad = adapter_env.contract in
        let (m1, (goes, left, got)) =
          hop_served tokens adapter_env funds Listed ledger paying env trader apart trader_apart
            base protocols last i x amount a m set known in_listed out_listed offered positive gain
            enough (subst (λ t. amount ≤ℤ funds m t env.contract) (sym from) held)
            (stock_for (x.token_out == x.token_out) a (demand path amounts x.token_out)
              (funds m x.token_out ad) (ground arith)
              (demand_not_negative path amounts x.token_out fills) (stock x.token_out)) in
        let (m', runs) =
          Runs-served (i + 1) x.token_out token_out path a amounts m1 (omega (arith, at)) route
            listed prices fills
            (λ u.
              stock_rest (when (u == x.token_out) a) (demand path amounts u) (funds m u ad)
                (funds m1 u ad) (stock u) (left u))
            gain (passed_on i last path x a m1 at got) in
        (m', hop goes runs)

  IsHeld-at_start :
      (token : Address) (amount : ℤ) (m : W) (path : List SwapStep)
      → amount ≤ℤ funds m token env.contract
      → IsHeld token amount m path
  IsHeld-at_start token amount m [] h = tt
  IsHeld-at_start token amount m (_ ∷ _) h = h

  -- A swap through the test adapter succeeds, with the amounts at the adapter's prices, and ends with the storage
  -- that its record describes, where: the terms and the route pass the checks; the token contracts keep to SEP-41, let
  -- a holder pay what it has, and the pull of the input goes through; a `u64` can hold the next execution
  -- id; every step names the adapter and trades listed tokens; the adapter is set up, does not fail or
  -- misreport on the route, and holds what the route takes out of it; each price is positive and covers its
  -- step's minimum, and the last covers the global minimum; router, trader and adapter are three addresses.
  pub swap_fulfils :
      (token_in token_out : Address) (amount_in amount_out_min : ℤ) (deadline : ℕ)
      (path : List SwapStep) (amounts : List ℤ) (s : Router.State (TestAdapter.State W))
      (pulled : W)
      → env.contract ≢ trader
      → HasTerms
          (tokens_below tokens)
          (test_adapters tokens adapter_env)
          env
          trader
          amount_in
          amount_out_min
          deadline
          path
          s
      → HasRoute
          (tokens_below tokens)
          (test_adapters tokens adapter_env)
          env
          trader
          token_in
          token_out
          amount_in
          path
          s
      → tokens.transfer s.world.world env.contract token_in trader env.contract amount_in
        ≡ some pulled
      → next_id s < 2 ^ 64
      → s.world.admin ≢ none
      → IsOpen s.protocols adapter_env.contract Listed path
      → AtPrices s.world path amount_in amounts
      → Fills path amounts
      → ((u : Address) → demand path amounts u ≤ℤ funds s.world.world u adapter_env.contract)
      → amount_out_min ≤ℤ final_amount amount_in amounts
      → (m : W) × (Router.swap
            (tokens_below tokens)
            (test_adapters tokens adapter_env)
            env
            trader
            token_in
            token_out
            amount_in
            amount_out_min
            deadline
            path
            s
          ≡ (
            ok (final_amount amount_in amounts),
            settled
                (tokens_below tokens)
                (test_adapters tokens adapter_env)
                env
                trader
                token_in
                token_out
                amount_in
                amount_out_min
                path
                s
                amounts
                (record s.world { world = m }),
          ))
  swap_fulfils token_in token_out amount_in amount_out_min deadline path amounts s pulled parties
        terms route moved fits set listed prices fills stock enough =
      let start = s.world.world in
      let ad = adapter_env.contract in
      let positive = terms.amount_positive in
      let kept = λ (u : Address).
        never_falls tokens funds ledger start pulled env.contract token_in trader env.contract
          amount_in moved u ad (λ e. trader_apart (sym e)) (weaken amount_in positive) in
      let held =
        covered (funds start token_in env.contract) (funds pulled token_in env.contract) amount_in
          (paying.not_negative start token_in env.contract)
          (receives tokens funds ledger start pulled env.contract token_in trader env.contract
            amount_in moved parties) in
      let (m, runs) =
        Runs-served s.world s.protocols (length path - 1) set 0 token_in token_out path amount_in
          amounts pulled (omega (arith, terms.nonempty)) route.route listed prices fills
          (λ u.
            no_less (demand path amounts u) (funds start u ad) (funds pulled u ad) (stock u)
              (kept u))
          positive (IsHeld-at_start token_in amount_in pulled path held) in
      (
        m,
        swap_returns (tokens_below tokens) (test_adapters tokens adapter_env) env trader token_in
            token_out amount_in amount_out_min deadline path s amounts
            (record s.world { world = pulled }) (record s.world { world = m }) terms route
            (transfers tokens adapter_env s.world start pulled env.contract token_in trader
              env.contract amount_in moved)
            fits runs enough,
      )
