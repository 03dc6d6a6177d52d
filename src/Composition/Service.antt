-- ===== src/Composition/Service.antt =====
-- One hop through the test adapter goes through (contracts/router/src/lib.rs, the execution loop, and
-- contracts/test-adapter/src/lib.rs, `TestAdapter::swap`), where the adapter is set up and stocked.
use stellariq_contract.Prelude.{
  Bool, ℕ, ◌≡◌, ◌≢◌, sym, subst, true, false, ◌&&◌, none, some, ◌==◌, ℤ, pos, ◌+ℤ◌, ◌-ℤ◌, ◌≤ℤ◌,
  ◌<ℤ◌, Map, IsI128, arith, int_laws, parts_eq, eq_of_parts,
}
use stellariq_contract.Soroban.{Address, Symbol, Env, Tokens, ok, unwrap_or}
use stellariq_contract.Soroban.Sep41.{when, IsLedger, IsPaying}
use stellariq_contract.Soroban.Payments.{never_falls, receives, pays_out, covered, weaken, no_less}
use stellariq_contract.Interfaces.{SwapStep, AdapterCall, value, checked_mul_div}
use stellariq_contract.Interfaces.Rates.{Exact, checked_mul_div-Exact}
use stellariq_contract.TestAdapter
use stellariq_contract.Router.Runs.{HopGoes, recipient_at, call_at}
use stellariq_contract.Composition.Wiring.{tokens_below, call_adapter, test_adapters}

module _ {W : Type 0} (tokens : Tokens W) (adapter_env : Env) (base : TestAdapter.State W) where
  abbrev pub at_world : W → TestAdapter.State W
  at_world m = record base { world = m }

  pub transfers :
      (m m' : W) (invoker token from to : Address) (x : ℤ)
      → tokens.transfer m invoker token from to x ≡ some m'
      → (tokens_below tokens).transfer (at_world m) invoker token from to x ≡ some (at_world m')
  transfers m m' invoker token from to x e = ground arith

  serve :
      (c : AdapterCall) (a held : ℤ) (m m' : W)
      → base.admin ≢ none
      → pos 0 <ℤ c.amount_in
      → base.fail c.pool ≢ some true
      → base.misreport c.pool ≡ none
      → tokens.balance m c.token_in adapter_env.contract ≡ some held
      → c.amount_in ≤ℤ held
      → let (num, denom) = unwrap_or (base.rate c.pool) (pos 1, pos 1) in
        checked_mul_div c.amount_in num denom ≡ some a
        → tokens.transfer m adapter_env.contract c.token_out adapter_env.contract c.recipient a
          ≡ some m'
        → TestAdapter.swap tokens adapter_env c (at_world m) ≡ (ok a, at_world m')
  unfolding TestAdapter.swap
  serve c a held m m' set positive works honest held_is enough price moved = ground arith

self_le : (x : ℤ) → x ≤ℤ x
self_le x = omega arith

price_fits : (amount num denom a : ℤ) → checked_mul_div amount num denom ≡ some a → IsI128 a
price_fits amount num denom a e =
    let (_, _, _, _, fits) =
      subst (Exact amount num denom) e (checked_mul_div-Exact amount num denom) in
    fits

delivered_by : (p q x : ℤ) → q ≡ p +ℤ x → x ≡ q -ℤ p
delivered_by p q x e = eq_of_parts x (q -ℤ p) (omega (int_laws, parts_eq e))

fits_by : (p q x : ℤ) → q ≡ p +ℤ x → IsI128 x → IsI128 (q -ℤ p)
fits_by p q x e fits = subst IsI128 (delivered_by p q x e) fits

left_over : (b c : Bool) (p q r x : ℤ) → c ≡ b → p ≤ℤ q → r ≡ q -ℤ when c x → p -ℤ when b x ≤ℤ r
left_over true true p q r x same h e = omega (int_laws, parts_eq e, h)
left_over true false p q r x same h e = absurd (ground arith)
left_over false true p q r x same h e = absurd (ground arith)
left_over false false p q r x same h e = omega (int_laws, parts_eq e, h)

-- What a hop asks of the adapter's settings.
pub record IsOffered {W : Type 0} (base : TestAdapter.State W) (x : SwapStep) (amount a : ℤ)
    : Type 0 where
  pub works : base.fail x.pool ≢ some true
  pub honest : base.misreport x.pool ≡ none
  pub price :
      let (num, denom) = unwrap_or (base.rate x.pool) (pos 1, pos 1) in
      checked_mul_div amount num denom ≡ some a

module _ {W : Type 0} (tokens : Tokens W) (adapter_env : Env) (funds : W → Address → Address → ℤ)
    (Listed : Address → Type 0) (ledger : IsLedger tokens funds)
    (paying : IsPaying tokens funds Listed) (env : Env) (trader : Address)
    (apart : env.contract ≢ adapter_env.contract) (trader_apart : trader ≢ adapter_env.contract)
    (base : TestAdapter.State W) (protocols : Map Symbol Address) (last : ℕ) where
  open ledger use {transfer_funds}
  open paying use {reads, not_negative, pays}

  abbrev adapter : Address
  adapter = adapter_env.contract

  abbrev recipient : ℕ → Address
  recipient i =
      recipient_at (tokens_below tokens) (test_adapters tokens adapter_env) env protocols trader
        last i

  -- Hop `i` goes through, from token state `m` to `m'`; the adapter loses the output only, and the
  -- recipient then holds it.
  abbrev pub HopServed : ℕ → SwapStep → ℤ → W → ℤ → W → Type 0
  HopServed i x amount m a m' =
      HopGoes (tokens_below tokens) (test_adapters tokens adapter_env) env protocols trader last i x
        amount (at_world tokens adapter_env base m) a (at_world tokens adapter_env base m')
      × ((u : Address) → funds m u adapter -ℤ when (u == x.token_out) a ≤ℤ funds m' u adapter)
      × (a ≤ℤ funds m' x.token_out (recipient i))

  recipient_apart : (i : ℕ) → recipient i ≢ adapter
  recipient_apart i = λ e. ground arith

  answers :
      (c : AdapterCall) (a : ℤ) (m m' : W)
      → TestAdapter.swap tokens adapter_env c (at_world tokens adapter_env base m)
        ≡ (ok a, at_world tokens adapter_env base m')
      → call_adapter tokens adapter_env (at_world tokens adapter_env base m) adapter c
        ≡ value a (at_world tokens adapter_env base m')
  unfolding call_adapter
  answers c a m m' h = ground arith

  -- What the payment to the adapter and the delivery leave.
  module _ (i : ℕ) (x : SwapStep) (amount a : ℤ) (m sent m' : W) (positive : pos 0 <ℤ amount)
      (gain : pos 0 <ℤ a)
      (forwarded : tokens.transfer m env.contract x.token_in env.contract adapter amount
        ≡ some sent)
      (moved : tokens.transfer sent adapter x.token_out adapter (recipient i) a ≡ some m') where
    stock_grows : (u : Address) → funds m u adapter ≤ℤ funds sent u adapter
    stock_grows u =
        never_falls tokens funds ledger m sent env.contract x.token_in env.contract adapter amount
          forwarded u adapter (λ e. apart (sym e)) (omega (int_laws, positive))

    input_held : amount ≤ℤ funds sent x.token_in adapter
    input_held =
        covered (funds m x.token_in adapter) (funds sent x.token_in adapter) amount
          (not_negative m x.token_in adapter)
          (receives tokens funds ledger m sent env.contract x.token_in env.contract adapter amount
            forwarded (λ e. apart (sym e)))

    arrives : funds m' x.token_out (recipient i) ≡ funds sent x.token_out (recipient i) +ℤ a
    arrives =
        receives tokens funds ledger sent m' adapter x.token_out adapter (recipient i) a moved
          (recipient_apart i)

    output_held : a ≤ℤ funds m' x.token_out (recipient i)
    output_held =
        covered (funds sent x.token_out (recipient i)) (funds m' x.token_out (recipient i)) a
          (not_negative sent x.token_out (recipient i)) arrives

    stock_left :
        (u : Address) → funds m u adapter -ℤ when (u == x.token_out) a ≤ℤ funds m' u adapter
    stock_left u =
        left_over (u == x.token_out) (u == x.token_out && adapter == adapter) (funds m u adapter)
          (funds sent u adapter) (funds m' u adapter) a (ground arith) (stock_grows u)
          (pays_out tokens funds ledger sent m' adapter x.token_out adapter (recipient i) a moved u
            (recipient_apart i))

  pub hop_served :
      (i : ℕ) (x : SwapStep) (amount a : ℤ) (m : W)
      → base.admin ≢ none
      → protocols x.protocol ≡ some adapter
      → Listed x.token_in
      → Listed x.token_out
      → IsOffered base x amount a
      → pos 0 <ℤ amount
      → pos 0 <ℤ a
      → x.amount_out_min ≤ℤ a
      → amount ≤ℤ funds m x.token_in env.contract
      → a ≤ℤ funds m x.token_out adapter
      → (m' : W) × HopServed i x amount m a m'
  hop_served i x amount a m set known in_listed out_listed offered positive gain enough held
        stocked =
      let r = recipient i in
      let c =
        call_at (tokens_below tokens) (test_adapters tokens adapter_env) env protocols trader last i
          x amount in
      let (sent, forwarded) =
        pays m x.token_in env.contract adapter amount in_listed (weaken amount positive) held in
      let some_in = weaken amount positive in
      let grows =
        never_falls tokens funds ledger m sent env.contract x.token_in env.contract adapter amount
          forwarded x.token_out adapter (λ e. apart (sym e)) some_in in
      let (m', moved) =
        pays sent x.token_out adapter r a out_listed (weaken a gain) (
          no_less a (funds m x.token_out adapter) (funds sent x.token_out adapter) stocked grows) in
      let served =
        serve tokens adapter_env base c a (funds sent x.token_in adapter) sent m' set positive
          offered.works offered.honest (reads sent x.token_in adapter in_listed)
          (input_held i x amount a m sent m' positive gain forwarded moved) offered.price moved in
      let moves = arrives i x amount a m sent m' positive gain forwarded moved in
      let before = funds sent x.token_out r in
      let after = funds m' x.token_out r in
      (
        m',
        (
          record {
            adapter = adapter;
            sent = at_world tokens adapter_env base sent;
            before = before;
            reported = a;
            after = after;
            known = known;
            forwarded =
                transfers tokens adapter_env base m sent env.contract x.token_in env.contract
                  adapter amount forwarded;
            measured = reads sent x.token_out r out_listed;
            answered = answers c a sent m' served;
            remeasured = reads m' x.token_out r out_listed;
            positive = gain;
            fits = fits_by before after a moves (
                price_fits amount (unwrap_or (base.rate x.pool) (pos 1, pos 1)).0
                  (unwrap_or (base.rate x.pool) (pos 1, pos 1)).1 a offered.price);
            delivered = delivered_by before after a moves;
            honest = self_le a;
            enough = enough;
          },
          stock_left i x amount a m sent m' positive gain forwarded moved,
          output_held i x amount a m sent m' positive gain forwarded moved,
        ),
      )
