-- ===== src/Fixture/SingleHop.antt =====
-- The network of contracts/router/src/fixture.rs, once set up and funded, trades one for one
-- (contracts/router/src/test.rs, `single_hop_swap_succeeds_and_settles`, at any amounts).
use stellariq_contract.Prelude.{
  ℕ, nat_eq, string_eq, ◌≡◌, ◌≢◌, refl, sym, subst, Option, List, [], ◌∷◌, ◌==◌, ℤ, pos, ◌+ℤ◌, ◌-ℤ◌,
  ◌≤ℤ◌, ◌<ℤ◌, IsI128, arith, int_laws,
}
use stellariq_contract.Soroban.{Contract, Env, Address, Hash, Tokens, ok}
use stellariq_contract.Soroban.Payments.{no_less}
use stellariq_contract.Soroban.Sep41.{IsLedger, IsPaying}
use stellariq_contract.Interfaces.{RouterError, SwapStep}
use stellariq_contract.Router
use stellariq_contract.Router.Custody.{IsApart}
use stellariq_contract.Router.Preflight.{HasTerms, HasRoute, Covers}
use stellariq_contract.Router.Settlement.{settled}
use stellariq_contract.Composition.{tokens_below, test_adapters}
use stellariq_contract.Composition.Fulfilment.{swap_fulfils}
use stellariq_contract.Composition.Confined.{swap_balances}
use stellariq_contract.Fixture.Defs.{Fixture, Network, deadline, parties, step}
use stellariq_contract.Fixture.Setup.{
  wired, IsMinting, IsApproved, IsFunded, funded_world, funded_amounts,
}
use stellariq_contract.Fixture.Amounts.{par, spent, gained, tests_apart, one_demand}

module _ (generate : ℕ → Address) where
  abbrev parts : Fixture
  parts = parties generate

  abbrev adapter_env : Env
  adapter_env = record parts.env { contract = parts.adapter_id }

  abbrev route : ℤ → List SwapStep
  route min = step parts parts.token_a parts.token_b min ∷ []

module _ {W : Type 0} (tokens : Tokens W) (funds : W → Address → Address → ℤ)
    (generate : ℕ → Address) where
  abbrev trade : ℤ → ℤ → ℤ → Contract (Network W) RouterError ℤ
  trade amount min amount_out_min =
      let f = parties generate in
      Router.swap (tokens_below tokens) (test_adapters tokens (adapter_env generate)) f.env f.trader
        f.token_a f.token_b amount amount_out_min deadline (route generate min)

  -- The swap returns its input, which the trader pays in the first token and gets in the second; the
  -- router's balances stay.
  abbrev pub Trades : ℤ → ℤ → ℤ → Network W → Type 0
  Trades amount min amount_out_min s =
      let f = parties generate in
      (t : Network W) × (trade amount min amount_out_min s ≡ (ok amount, t))
      × (funds t.world.world f.token_a f.trader ≡ funds s.world.world f.token_a f.trader -ℤ amount)
      × (funds t.world.world f.token_b f.trader ≡ funds s.world.world f.token_b f.trader +ℤ amount)
      × ((u : Address) → funds s.world.world u f.router_id ≡ funds t.world.world u f.router_id)

module _ {W : Type 0} (tokens : Tokens W) (funds : W → Address → Address → ℤ)
    (Listed : Address → Type 0) (ledger : IsLedger tokens funds)
    (paying : IsPaying tokens funds Listed) (minted : W → Address → Address → ℤ → Option W)
    (minting : IsMinting minted funds) (generate : ℕ → Address)
    (distinct : (i j : ℕ) → generate i ≡ generate j → i ≡ j) (code : Hash) (blank : W) where
  abbrev f : Fixture
  f = parties generate

  apart : (i j : ℕ) → i ≢ j → generate i ≢ generate j
  apart i j other = λ e. other (distinct i j e)

  fixture-IsApart : (m : W) (h : Address) → h ≢ f.adapter_id → IsApart h (wired generate code m)
  fixture-IsApart m h other p a e = ground arith

  trade-HasTerms :
      (amount min amount_out_min : ℤ) (m : W)
      → pos 0 <ℤ amount
      → pos 0 <ℤ amount_out_min
      → HasTerms
          (tokens_below tokens)
          (test_adapters tokens (adapter_env generate))
          f.env
          f.trader
          amount
          amount_out_min
          deadline
          (route generate min)
          (wired generate code m)
  trade-HasTerms amount min amount_out_min m gain some_global = record {
    initialized = ground arith;
    live = refl;
    authorized = refl;
    amount_positive = gain;
    minimum_positive = some_global;
    in_time = ground arith;
    nonempty = ground arith;
    bounded = ground arith;
  }

  trade-HasRoute :
      (amount min : ℤ) (m : W)
      → Listed f.token_a
      → pos 0 ≤ℤ min
      → amount ≤ℤ funds m f.token_a f.trader
      → HasRoute
          (tokens_below tokens)
          (test_adapters tokens (adapter_env generate))
          f.env
          f.trader
          f.token_a
          f.token_b
          amount
          (route generate min)
          (wired generate code m)
  trade-HasRoute amount min m a_listed some_min covered = record {
    route = (refl, some_min, refl);
    registered = (ground arith, tt);
    funded =
        subst (λ o. Covers o amount) (sym (paying.reads m f.token_a f.trader a_listed)) covered;
  }

  -- The swap, on a set-up network where trader and adapter hold enough.
  wired-trade :
      IsApproved tokens funds Listed f.router_id f.trader
      → Listed f.token_a
      → Listed f.token_b
      → (amount min amount_out_min : ℤ) (m : W) → pos 0 <ℤ amount
      → IsI128 amount
      → amount ≤ℤ funds m f.token_a f.trader
      → amount ≤ℤ funds m f.token_b f.adapter_id
      → pos 0 ≤ℤ min
      → min ≤ℤ amount
      → pos 0 <ℤ amount_out_min
      → amount_out_min ≤ℤ amount
      → (t : Network W) × (trade tokens funds generate amount min amount_out_min
            (wired generate code m)
          ≡ (ok amount, t))
  wired-trade approved a_listed b_listed amount min amount_out_min m gain fits covered stocked
        some_min min_met some_global global_met =
      let s = wired generate code m in
      let (pulled, moved) =
        approved.pulls m f.token_a f.router_id amount a_listed (omega (int_laws, gain)) covered in
      let (w, done) =
        swap_fulfils tokens (adapter_env generate) funds Listed ledger paying f.env f.trader
          (apart 2 3 (ground arith)) (apart 1 3 (ground arith)) f.token_a f.token_b amount
          amount_out_min deadline (route generate min) (amount ∷ []) s pulled
          (apart 2 1 (ground arith)) (trade-HasTerms amount min amount_out_min m gain some_global)
          (trade-HasRoute amount min m a_listed some_min covered) moved (ground arith)
          (ground arith) (refl, a_listed, b_listed, tt)
          (record { works = ground arith; honest = refl; price = par amount gain fits }, tt)
          (gain, min_met, tt)
          (λ u.
            one_demand u f.token_b amount (λ v. funds m v f.adapter_id)
              (paying.not_negative m u f.adapter_id) stocked)
          global_met in
      (
        settled (tokens_below tokens) (test_adapters tokens (adapter_env generate)) f.env f.trader
            f.token_a f.token_b amount amount_out_min (route generate min) s (amount ∷ [])
            (record s.world { world = w }),
        done,
      )

  -- After `setup` and `fund_single_hop`, with any fundings, the router swaps one for one any positive amount
  -- within an `i128` that is covered by what the trader and the adapter were given, where the hop's minimum is
  -- from 0 to the amount and the global minimum positive and at most the amount: it passes exactly the
  -- amount on, and its own balances stay. The two tokens are listed; the tokens keep to SEP-41 and let a holder
  -- pay, and let the router pull what the trader signed for; minting adds its amount, and the host hands out
  -- distinct addresses.
  pub single_hop_pays :
      IsApproved tokens funds Listed f.router_id f.trader
      → Listed f.token_a
      → Listed f.token_b
      → (trader_a adapter_b amount min amount_out_min : ℤ) (s : Network W)
      → IsFunded minted generate code blank trader_a adapter_b s
      → pos 0 <ℤ amount
      → IsI128 amount
      → amount ≤ℤ trader_a
      → amount ≤ℤ adapter_b
      → pos 0 ≤ℤ min
      → min ≤ℤ amount
      → pos 0 <ℤ amount_out_min
      → amount_out_min ≤ℤ amount
      → Trades tokens funds generate amount min amount_out_min s
  single_hop_pays approved a_listed b_listed trader_a adapter_b amount min amount_out_min s funded
        gain fits covered stocked some_min min_met some_global global_met =
      let (m1, m, paid, filled, same) =
        funded_world minted generate code blank trader_a adapter_b s funded in
      let (trader_has, adapter_has) =
        funded_amounts minted generate code blank funds minting paying.not_negative trader_a
          adapter_b m1 m paid filled in
      let (t, done) =
        wired-trade approved a_listed b_listed amount min amount_out_min m gain fits
          (no_less amount trader_a (funds m f.token_a f.trader) covered trader_has)
          (no_less amount adapter_b (funds m f.token_b f.adapter_id) stocked adapter_has) some_min
          min_met some_global global_met in
      let (custody, payment) =
        swap_balances tokens (adapter_env generate) funds ledger f.env f.trader f.token_a f.token_b
          amount amount_out_min deadline (route generate min) (wired generate code m) t amount
          (apart 2 1 (ground arith)) (fixture-IsApart m f.router_id (apart 2 3 (ground arith)))
          (fixture-IsApart m f.trader (apart 1 3 (ground arith))) done in
      subst (Trades tokens funds generate amount min amount_out_min) (sym same) (
        t,
        done,
        spent (f.token_a == f.token_a) (f.token_a == f.token_b) (funds m f.token_a f.trader)
            (funds t.world.world f.token_a f.trader) amount (ground arith)
            (tests_apart f.token_a f.token_b (apart 6 7 (ground arith))) (payment f.token_a),
        gained (f.token_b == f.token_a) (f.token_b == f.token_b) (funds m f.token_b f.trader)
            (funds t.world.world f.token_b f.trader) amount
            (tests_apart f.token_b f.token_a (apart 7 6 (ground arith))) (ground arith)
            (payment f.token_b),
        custody,
      )
