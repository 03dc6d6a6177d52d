-- ===== src/Scenario/FixtureWitness.antt =====
-- The trade of `single_hop_swap_succeeds_and_settles` (contracts/router/src/test.rs), from `setup` of
-- contracts/router/src/fixture.rs on, as an example of the theorem at any amounts.
use stellariq_contract.Prelude.{
  ℕ, ◌+◌, ◌≡◌, refl, subst, Bool, ◌&&◌, some, ◌==◌, ℤ, pos, negsuc, ◌≤ℤ◌, ◌+ℤ◌, nat_eq, string_eq,
  arith, if◌then◌else◌,
}
use stellariq_contract.Soroban.{Address}
use stellariq_contract.Soroban.Sep41.{when}
use stellariq_contract.TestAdapter
use stellariq_contract.Router
use stellariq_contract.Fixture.{Fixture, Network, parties, setup}
use stellariq_contract.Fixture.Setup.{wired, IsMinting, IsApproved, IsFunded}
use stellariq_contract.Fixture.SingleHop.{Trades, single_hop_pays}
use stellariq_contract.Scenario.Network.{Ledger, plain_tokens, plain_mint, no_funds, credit, debit}
use stellariq_contract.Scenario.Facts.{held, Listed, plain_tokens-IsLedger, plain_tokens-IsPaying}

abbrev generate : ℕ → Address
generate n = n + 1

abbrev f : Fixture
f = parties generate

abbrev start : Network Ledger
start = wired generate 0 no_funds

minted_ledger : (b : Bool) (p n : ℕ) → pos (if b then p + n else p) ≡ pos p +ℤ when b (pos n)
unfolding ◌+ℤ◌
minted_ledger b p n = ground arith

minted_amount :
    (m : Ledger) (token to : Address) (x : ℤ) (m' : Ledger)
    → plain_mint m token to x ≡ some m'
    → pos 0 ≤ℤ x
minted_amount m token to (negsuc n) m' e = absurd (ground arith)
minted_amount m token to (pos n) m' e = ground arith

minted_credit :
    (m : Ledger) (token to : Address) (n : ℕ) (m' : Ledger)
    → plain_mint m token to (pos n) ≡ some m'
    → credit token to n m ≡ m'
minted_credit m token to n m' e = ground arith

minted_funds :
    (m : Ledger) (token to : Address) (x : ℤ) (m' : Ledger) (u h : Address)
    → plain_mint m token to x ≡ some m'
    → held m' u h ≡ held m u h +ℤ when (u == token && h == to) x
minted_funds m token to (negsuc n) m' u h e = absurd (ground arith)
minted_funds m token to (pos n) m' u h e =
    subst (λ (z : Ledger). held z u h ≡ held m u h +ℤ when (u == token && h == to) (pos n))
      (minted_credit m token to n m' e) (minted_ledger (u == token && h == to) (m u h) n)

plain_mint-IsMinting : IsMinting plain_mint held
plain_mint-IsMinting = record {
  some_minted = λ m token to x m' e. minted_amount m token to x m' e;
  minted_funds = λ m token to x m' u h e. minted_funds m token to x m' u h e;
}

pulled :
    (m : Ledger) (token to : Address) (x : ℤ)
    → Listed token
    → pos 0 ≤ℤ x
    → x ≤ℤ held m token f.trader
    → (m' : Ledger) × (plain_tokens.transfer m f.router_id token f.trader to x ≡ some m')
pulled m token to (negsuc n) listed some_paid enough = absurd (ground arith)
pulled m token to (pos n) listed some_paid enough =
    (credit token to n (debit token f.trader n m), ground arith)

trader-IsApproved : IsApproved plain_tokens held Listed f.router_id f.trader
trader-IsApproved = record {
  pulls = λ m token to x listed some_paid enough. pulled m token to x listed some_paid enough;
}

abbrev funded : Network Ledger
funded =
    wired generate 0
      (credit f.token_b f.adapter_id 10000 (credit f.token_a f.trader 10000 no_funds))

funded-IsFunded : IsFunded plain_mint generate 0 no_funds (pos 10000) (pos 10000) funded
unfolding setup Router.initialize TestAdapter.initialize Router.set_protocol
funded-IsFunded = refl

-- `single_hop_swap_succeeds_and_settles`
single_hop_pays_example : Trades plain_tokens held generate (pos 1000) (pos 900) (pos 900) funded
single_hop_pays_example =
    single_hop_pays plain_tokens held Listed plain_tokens-IsLedger plain_tokens-IsPaying plain_mint
      plain_mint-IsMinting generate (λ i j e. ground arith) 0 no_funds trader-IsApproved refl refl
      (pos 10000) (pos 10000) (pos 1000) (pos 900) (pos 900) funded funded-IsFunded (ground arith)
      (ground arith, ground arith) (ground arith) (ground arith) (ground arith) (ground arith)
      (ground arith) (ground arith)
