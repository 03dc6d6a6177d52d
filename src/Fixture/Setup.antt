-- ===== src/Fixture/Setup.antt =====
-- What `setup` and `fund_single_hop` of contracts/router/src/fixture.rs leave.
use stellariq_contract.Prelude.{
  ℕ, nat_eq, string_eq, ◌≡◌, refl, sym, ap, subst, ◌∙◌, Bool, true, false, Option, none, some, [],
  ◌∷◌, ◌==◌, ℤ, pos, ◌+ℤ◌, ◌≤ℤ◌, ◌&&◌, put, empty, arith, int_laws, parts_eq,
}
use mathlib.Core.Option.{some-injective}
use stellariq_contract.Soroban.{Address, Hash, Tokens, instance_ttl, entry_ttl}
use stellariq_contract.Soroban.Payments.{no_less}
use stellariq_contract.Soroban.Sep41.{when}
use stellariq_contract.Interfaces.{and_then, initialized, protocol_set, event_schema_version}
use stellariq_contract.TestAdapter
use stellariq_contract.Router
use stellariq_contract.Router.Entries.{deployed}
use stellariq_contract.Fixture.Defs.{Fixture, Network, parties, setup, unset, mint, fund_single_hop}

-- What `mint` of a token contract does: it adds an amount that is not negative.
pub record IsMinting {W : Type 0} (minted : W → Address → Address → ℤ → Option W)
    (funds : W → Address → Address → ℤ) : Type 0 where
  pub some_minted :
      (w : W) (token to : Address) (x : ℤ) (w' : W) → minted w token to x ≡ some w' → pos 0 ≤ℤ x
  pub minted_funds :
      (w : W) (token to : Address) (x : ℤ) (w' : W) (u h : Address)
      → minted w token to x ≡ some w'
      → funds w' u h ≡ funds w u h +ℤ when (u == token && h == to) x

-- A contract may take from this holder what it has.
pub record IsApproved {W : Type 0} (tokens : Tokens W) (funds : W → Address → Address → ℤ)
    (Listed : Address → Type 0) (spender holder : Address) : Type 0 where
  pub pulls :
      (m : W) (token to : Address) (x : ℤ)
      → Listed token
      → pos 0 ≤ℤ x
      → x ≤ℤ funds m token holder
      → (m' : W) × (tokens.transfer m spender token holder to x ≡ some m')

and_then-some :
    {A B : Type 0} (o : Option A) (g : A → Option B) {b : B}
    → and_then o g ≡ some b
    → (a : A) × (o ≡ some a) × (g a ≡ some b)
and_then-some none g h = cc
and_then-some (some a) g h = (a, refl, h)

grown : (b : Bool) (p q x : ℤ) → pos 0 ≤ℤ x → q ≡ p +ℤ when b x → p ≤ℤ q
grown true p q x h e = omega (int_laws, h, parts_eq e)
grown false p q x h e = omega (int_laws, h, parts_eq e)

topped : (b : Bool) (p q x : ℤ) → b ≡ true → pos 0 ≤ℤ p → q ≡ p +ℤ when b x → x ≤ℤ q
topped true p q x on h e = omega (int_laws, h, parts_eq e)
topped false p q x on h e = absurd (ground arith)

module _ (generate : ℕ → Address) (code : Hash) where
  abbrev f : Fixture
  f = parties generate

  -- The network that `setup` leaves, over the token contracts' state `m`.
  abbrev pub wired : {W : Type 0} → W → Network W
  wired m = record (deployed code (record (unset m) { admin = some f.admin })) {
    admin = some f.admin;
    paused = some false;
    nonce = some 0;
    protocols = put "test" f.adapter_id empty;
    events =
        initialized f.admin event_schema_version
        ∷ protocol_set "test" f.adapter_id event_schema_version
        ∷ [];
    extensions =
        instance_ttl Router.ttl_threshold Router.ttl_extend
        ∷ entry_ttl (Router.protocol_key "test") Router.ttl_threshold Router.ttl_extend
        ∷ [];
  }

  setup_lem : {W : Type 0} (blank : W) → setup generate code blank ≡ some (f, wired blank)
  unfolding setup Router.initialize TestAdapter.initialize Router.set_protocol
  setup_lem blank = refl

module _ {W : Type 0} (minted : W → Address → Address → ℤ → Option W) (generate : ℕ → Address)
    (code : Hash) (blank : W) where
  abbrev parts : Fixture
  parts = parties generate

  -- The network after `setup` and `fund_single_hop`.
  abbrev pub IsFunded : ℤ → ℤ → Network W → Type 0
  IsFunded trader_a adapter_b s =
      and_then (setup generate code blank) (λ r. fund_single_hop minted r.0 trader_a adapter_b r.1)
      ≡ some s

  pub funded_world :
      (trader_a adapter_b : ℤ) (s : Network W)
      → IsFunded trader_a adapter_b s
      → (m1 m2 : W) × (minted blank parts.token_a parts.trader trader_a ≡ some m1)
        × (minted m1 parts.token_b parts.adapter_id adapter_b ≡ some m2)
        × (s ≡ wired generate code m2)
  funded_world trader_a adapter_b s h =
      let start = wired generate code blank in
      let funding =
        ap (λ o. and_then o (λ r. fund_single_hop minted r.0 trader_a adapter_b r.1))
          (sym (setup_lem generate code blank))
        ∙ h in
      let (s1, first, second) =
        and_then-some (mint minted parts.token_a parts.trader trader_a start)
          (λ t. mint minted parts.token_b parts.adapter_id adapter_b t) funding in
      let (m1, paid, one) =
        and_then-some (minted blank parts.token_a parts.trader trader_a)
          (λ m. some (wired generate code m)) first in
      let given =
        subst (λ t. mint minted parts.token_b parts.adapter_id adapter_b t ≡ some s)
          (sym (some-injective _ _ one)) second in
      let (m2, stocked, two) =
        and_then-some (minted m1 parts.token_b parts.adapter_id adapter_b)
          (λ m. some (wired generate code m)) given in
      (m1, m2, paid, stocked, sym (some-injective _ _ two))

  -- What the two mints leave.
  pub funded_amounts :
      (funds : W → Address → Address → ℤ)
      → IsMinting minted funds
      → ((w : W) (token holder : Address) → pos 0 ≤ℤ funds w token holder)
      → (trader_a adapter_b : ℤ) (m1 m2 : W)
      → minted blank parts.token_a parts.trader trader_a ≡ some m1
      → minted m1 parts.token_b parts.adapter_id adapter_b ≡ some m2
      → (trader_a ≤ℤ funds m2 parts.token_a parts.trader)
        × (adapter_b ≤ℤ funds m2 parts.token_b parts.adapter_id)
  funded_amounts funds minting not_negative trader_a adapter_b m1 m2 paid stocked =
      let given =
        topped (parts.token_a == parts.token_a && parts.trader == parts.trader)
          (funds blank parts.token_a parts.trader) (funds m1 parts.token_a parts.trader) trader_a
          (ground arith) (not_negative blank parts.token_a parts.trader)
          (minting.minted_funds blank parts.token_a parts.trader trader_a m1 parts.token_a
            parts.trader paid) in
      let kept =
        grown (parts.token_a == parts.token_b && parts.trader == parts.adapter_id)
          (funds m1 parts.token_a parts.trader) (funds m2 parts.token_a parts.trader) adapter_b
          (minting.some_minted m1 parts.token_b parts.adapter_id adapter_b m2 stocked)
          (minting.minted_funds m1 parts.token_b parts.adapter_id adapter_b m2 parts.token_a
            parts.trader stocked) in
      (
        no_less trader_a (funds m1 parts.token_a parts.trader) (funds m2 parts.token_a parts.trader)
            given kept,
        topped (parts.token_b == parts.token_b && parts.adapter_id == parts.adapter_id)
            (funds m1 parts.token_b parts.adapter_id) (funds m2 parts.token_b parts.adapter_id)
            adapter_b (ground arith) (not_negative m1 parts.token_b parts.adapter_id)
            (minting.minted_funds m1 parts.token_b parts.adapter_id adapter_b m2 parts.token_b
              parts.adapter_id stocked),
      )
