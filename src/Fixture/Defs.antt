-- ===== src/Fixture/Defs.antt =====
-- contracts/router/src/fixture.rs, function by function.
use stellariq_contract.Prelude.{ℕ, true, false, Option, none, some, ℤ, empty}
use stellariq_contract.Soroban.{Address, Hash, Env, Tokens, Contract, client}
use stellariq_contract.Interfaces.{SwapStep, and_then}
use stellariq_contract.TestAdapter
use stellariq_contract.Router
use stellariq_contract.Router.Entries.{deployed}

abbrev pub deadline : ℕ
deadline = 1000000

-- `env` is the context of the calls of the router.
pub record Fixture : Type 0 where
  pub env : Env
  pub admin : Address
  pub trader : Address
  pub router_id : Address
  pub adapter_id : Address
  pub token_a : Address
  pub token_b : Address
  pub token_c : Address
  pub pool : Address
  pub pool2 : Address

-- The storage of the router, over that of the adapter, over the state of the token contracts.
abbrev pub Network : Type 0 → Type 0
Network W = Router.State (TestAdapter.State W)

-- `TestAdapter` before `initialize`.
abbrev pub unset : {W : Type 0} → W → TestAdapter.State W
unset m = record { admin = none; rate = empty; fail = empty; misreport = empty; world = m }

module _ {W : Type 0} where
  -- `RouterClient::new(&f.env, &f.router_id)`, and a call through it.
  abbrev pub router :
      {E A : Type 0}
      → Fixture
      → (Env → Contract (Network W) E A)
      → Network W
      → Option (A × Network W)
  router f entry s = client (entry f.env) s

  -- `TestAdapterClient::new(&f.env, &f.adapter_id)`, and a call through it.
  abbrev pub adapter :
      {E A : Type 0}
      → Fixture
      → (Env → Contract (TestAdapter.State W) E A)
      → Network W
      → Option (A × Network W)
  adapter f entry s =
      and_then (client (entry (record f.env { contract = f.adapter_id })) s.world)
        (λ r. some (r.0, record s { world = r.1 }))

-- The host hands out the addresses in order. The ledger's time is 1000, and everybody signs.
module _ (generate : ℕ → Address) where
  abbrev pub parties : Fixture
  parties = record {
    env = record {
      contract = generate 2;
      timestamp = 1000;
      sequence = 0;
      signed = λ a. true;
      uploaded = λ h. false;
    };
    admin = generate 0;
    trader = generate 1;
    router_id = generate 2;
    adapter_id = generate 3;
    pool = generate 4;
    pool2 = generate 5;
    token_a = generate 6;
    token_b = generate 7;
    token_c = generate 8;
  }

  unfoldable pub setup : {W : Type 0} → Hash → W → Option (Fixture × Network W)
  unfolding Router.initialize TestAdapter.initialize Router.set_protocol
  setup code blank =
      let f = parties in
      and_then (router f (λ env. Router.initialize env f.admin) (deployed code (unset blank))) (λ r.
        and_then (adapter f (λ env. TestAdapter.initialize f.admin) r.1) (λ q.
          and_then (router f (λ env. Router.set_protocol env "test" f.adapter_id) q.1)
            (λ p. some (f, p.1))))

-- `StellarAssetClient::mint` is the token's: token, holder, amount.
module _ {W : Type 0} (minted : W → Address → Address → ℤ → Option W) where
  abbrev pub mint : Address → Address → ℤ → Network W → Option (Network W)
  mint token to amount s =
      and_then (minted s.world.world token to amount)
        (λ m. some (record s { world = record s.world { world = m } }))

  -- The trader gets the first token, the adapter the second.
  abbrev pub fund_single_hop : Fixture → ℤ → ℤ → Network W → Option (Network W)
  fund_single_hop f trader_a adapter_b s =
      and_then (mint f.token_a f.trader trader_a s) (λ t. mint f.token_b f.adapter_id adapter_b t)

abbrev pub balance : {W : Type 0} → Tokens W → Address → Address → Network W → Option ℤ
balance tokens token holder s = tokens.balance s.world.world token holder

abbrev pub step_on_pool : Address → Address → Address → ℤ → SwapStep
step_on_pool pool token_in token_out min = record {
  protocol = "test";
  pool = pool;
  token_in = token_in;
  token_out = token_out;
  amount_out_min = min;
}

abbrev pub step : Fixture → Address → Address → ℤ → SwapStep
step f token_in token_out min = step_on_pool f.pool token_in token_out min
