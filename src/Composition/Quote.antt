-- ===== src/Composition/Quote.antt =====
-- What a swap through the test adapter yields (contracts/router/src/lib.rs, `Router::swap`, and
-- contracts/test-adapter/src/lib.rs, `TestAdapter::swap`): the price of the route.
use stellariq_contract.Prelude.{
  ℕ, ◌-◌, ◌+◌, ◌≡◌, ◌≢◌, ◌∙◌, refl, sym, ap, subst, ◌&&◌, Option, none, some, List, [], ◌∷◌, length,
  ◌==◌, ℤ, pos, ◌+ℤ◌, ◌-ℤ◌, Map, arith, int_laws, parts_eq,
}
use stellariq_contract.Soroban.{Address, Symbol, Env, Tokens, ok, unwrap_or}
use stellariq_contract.Soroban.Sep41.{when, IsLedger}
use stellariq_contract.Interfaces.{SwapStep, AdapterCall, checked_mul_div, and_then}
use stellariq_contract.TestAdapter
use stellariq_contract.TestAdapter.Pricing.{SwapPrices, swap_ends, rate_of, Delivered}
use stellariq_contract.Router
use stellariq_contract.Router.Spec.{final_amount}
use stellariq_contract.Router.Runs.{HopGoes, Runs, arrived, hop, recipient_at, call_at}
use stellariq_contract.Router.Necessity.{swap_needs}
use stellariq_contract.Composition.Wiring.{tokens_below, test_adapters}
use stellariq_contract.Composition.Confined.{answered}

-- The price of a route at the adapter's rates: from pool to pool, each time the floor of what the rate
-- gives. A pool without a rate exchanges one to one.
unfoldable pub quote : Map Address (ℤ × ℤ) → List SwapStep → ℤ → Option ℤ
quote rates [] amount = some amount
quote rates (x ∷ path) amount =
    let (num, denom) = unwrap_or (rates x.pool) (pos 1, pos 1) in
    and_then (checked_mul_div amount num denom) (λ out. quote rates path out)

module _ {W : Type 0} (tokens : Tokens W) (adapter_env : Env) (funds : W → Address → Address → ℤ)
    (ledger : IsLedger tokens funds) (env : Env) (trader : Address)
    (apart : env.contract ≢ adapter_env.contract)
    (trader_apart : trader ≢ adapter_env.contract) where
  open ledger use {balance_funds, transfer_funds}

  priced :
      (c : AdapterCall) (w w' : TestAdapter.State W) (v : ℤ) (o : Option ℤ)
      → SwapPrices tokens adapter_env c w o (ok v, w')
      → (out : ℤ) × (o ≡ some out) × Delivered tokens adapter_env c w out v w'
  priced c w w' v none h = absurd h
  priced c w w' v (some out) h = (out, refl, h.2)

  transfer_settings :
      (w : TestAdapter.State W) (invoker token from to : Address) (x : ℤ) (w1 : TestAdapter.State W)
      → (tokens_below tokens).transfer w invoker token from to x ≡ some w1
      → w1.rate ≡ w.rate
  transfer_settings w invoker token from to x w1 e = ground arith

  recipient_apart :
      (protocols : Map Symbol Address) (last i : ℕ)
      → recipient_at
          (tokens_below tokens)
          (test_adapters tokens adapter_env)
          env
          protocols
          trader
          last
          i
        ≢ adapter_env.contract
  recipient_apart protocols last i = λ e. ground arith

  got_all : (t r : Address) (out : ℤ) → when (t == t && r == r) out ≡ out
  got_all t r out = ground arith

  paid_none : (t r s : Address) (out : ℤ) → r ≢ s → when (t == t && r == s) out ≡ pos 0
  paid_none t r s out h = ground arith

  delta :
      (before after got paid out a : ℤ)
      → got ≡ out
      → paid ≡ pos 0
      → after ≡ before +ℤ got -ℤ paid
      → a ≡ after -ℤ before
      → a ≡ out
  delta before after got paid out a g p h e =
      omega (int_laws, parts_eq g, parts_eq p, parts_eq h, parts_eq e)

  -- A hop yields the price at the pool's rate, and leaves the rates as they are.
  hop_quoted :
      (protocols : Map Symbol Address) (last i : ℕ) (x : SwapStep) (amount a : ℤ)
      (w w' : TestAdapter.State W)
      → HopGoes
          (tokens_below tokens)
          (test_adapters tokens adapter_env)
          env
          protocols
          trader
          last
          i
          x
          amount
          w
          a
          w'
      → let (num, denom) = unwrap_or (w.rate x.pool) (pos 1, pos 1) in
        (checked_mul_div amount num denom ≡ some a) × (w'.rate ≡ w.rate)
  hop_quoted protocols last i x amount a w w' h =
      let r =
        recipient_at (tokens_below tokens) (test_adapters tokens adapter_env) env protocols trader
          last i in
      let c =
        call_at (tokens_below tokens) (test_adapters tokens adapter_env) env protocols trader last i
          x amount in
      let ad = adapter_env.contract in
      let s1 = h.sent in
      let (at, served) =
        answered tokens adapter_env funds ledger s1 h.adapter c h.reported w' h.answered in
      let (num, denom) = rate_of tokens adapter_env c s1 in
      let (out, price, (moved, kept, _)) =
        priced c s1 w' h.reported (checked_mul_div amount num denom) (
          subst (SwapPrices tokens adapter_env c s1 (checked_mul_div amount num denom)) served
            (swap_ends tokens adapter_env c s1)) in
      let before = balance_funds s1.world x.token_out r h.before h.measured in
      let after = balance_funds w'.world x.token_out r h.after h.remeasured in
      let flow = transfer_funds s1.world ad x.token_out ad r out w'.world x.token_out r moved in
      let same =
        transfer_settings w env.contract x.token_in env.contract h.adapter amount s1 h.forwarded in
      let all =
        delta h.before h.after (when (x.token_out == x.token_out && r == r) out)
          (when (x.token_out == x.token_out && r == ad) out) out a (got_all x.token_out r out)
          (paid_none x.token_out r ad out (recipient_apart protocols last i))
          (after
            ∙ flow
            ∙ ap
                (λ z.
                  z
                  +ℤ when (x.token_out == x.token_out && r == r) out
                  -ℤ when (x.token_out == x.token_out && r == ad) out)
                (sym before))
          h.delivered in
      (
        subst
            (λ (m : Map Address (ℤ × ℤ)).
              checked_mul_div amount (unwrap_or (m x.pool) (pos 1, pos 1)).0
                (unwrap_or (m x.pool) (pos 1, pos 1)).1
              ≡ some a)
            same (price ∙ ap some (sym all)),
        ap (λ z. z.rate) kept ∙ same,
      )

  Runs-quoted :
      (protocols : Map Symbol Address) (last : ℕ) (rates : Map Address (ℤ × ℤ)) (i : ℕ)
      (path : List SwapStep) (amount : ℤ) (w : TestAdapter.State W) (amounts : List ℤ)
      (w' : TestAdapter.State W)
      → w.rate ≡ rates
      → Runs
          (tokens_below tokens)
          (test_adapters tokens adapter_env)
          env
          protocols
          trader
          last
          i
          path
          amount
          w
          amounts
          w'
      → (quote rates path amount ≡ some (final_amount amount amounts)) × (w'.rate ≡ rates)
  unfolding quote
  Runs-quoted protocols last rates i path amount w amounts w' e arrived = (refl, e)
  Runs-quoted protocols last rates i path amount w amounts w' e
        (hop {x = x} {path = more} {a = a} {amounts = outs} {w1 = w1} goes runs) =
      let (price, kept) = hop_quoted protocols last i x amount a w w1 goes in
      let (rest, end) =
        Runs-quoted protocols last rates (i + 1) more a w1 outs w' (kept ∙ e) runs in
      let at_rates =
        subst
          (λ (m : Map Address (ℤ × ℤ)).
            checked_mul_div amount (unwrap_or (m x.pool) (pos 1, pos 1)).0
              (unwrap_or (m x.pool) (pos 1, pos 1)).1
            ≡ some a)
          e price in
      (ap (λ o. and_then o (λ out. quote rates more out)) at_rates ∙ rest, end)

  -- A swap through the test adapter that returns yields exactly the quote of its route at the adapter's
  -- rates, whatever the adapter reports, and leaves the rates as they are; where the tokens keep to
  -- SEP-41, and the adapter is neither the router nor the trader.
  pub swap_quoted :
      (token_in token_out : Address) (amount_in amount_out_min : ℤ) (deadline : ℕ)
      (path : List SwapStep) (s t : Router.State (TestAdapter.State W)) (out : ℤ)
      → Router.swap
          (tokens_below tokens)
          (test_adapters tokens adapter_env)
          env
          trader
          token_in
          token_out
          amount_in
          amount_out_min
          deadline
          path
          s
        ≡ (ok out, t)
      → (quote s.world.rate path amount_in ≡ some out) × (t.world.rate ≡ s.world.rate)
  swap_quoted token_in token_out amount_in amount_out_min deadline path s t out done =
      let (pulled, amounts, moved, runs, total) =
        swap_needs (tokens_below tokens) (test_adapters tokens adapter_env) env trader token_in
          token_out amount_in amount_out_min deadline path s out t done in
      let same =
        transfer_settings s.world env.contract token_in trader env.contract amount_in pulled
          moved in
      let (price, kept) =
        Runs-quoted s.protocols (length path - 1) s.world.rate 0 path amount_in pulled amounts
          t.world same runs in
      (price ∙ ap some (sym total), kept)
