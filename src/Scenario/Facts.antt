-- ===== src/Scenario/Facts.antt =====
-- What the network of `Scenario.Network` keeps to: its tokens to SEP-41, and its adapter (contracts/
-- test-adapter/src/lib.rs) to spending its own funds.
use stellariq_contract.Prelude.{
  ℕ, ◌+◌, ◌-◌, ◌≤◌, ◌≤ℤ◌, negsuc, ◌≡◌, Bool, true, ◌&&◌, some, ◌==◌, ℤ, pos, ◌+ℤ◌, ◌-ℤ◌, arith,
  refl, if◌then◌else◌, subst, string_eq, nat_eq, checked_sub, ◌*ℤ◌,
}
use stellariq_contract.Soroban.{Address, ok}
use stellariq_contract.Interfaces.{checked_mul_div}
use stellariq_contract.TestAdapter
use stellariq_contract.Router
use stellariq_contract.Soroban.Sep41.{when, IsLedger, IsPaying}
use stellariq_contract.Router.Funds.{IsConfined}
use stellariq_contract.Router.Custody.{IsApart}
use stellariq_contract.Scenario.Network.{
  Others, Ledger, trader, router_id, token_a, token_c, plain_transfer, tokens, adapters, is_token,
  env, plain_tokens, adapter_env, credit, debit, router_with,
}
use stellariq_contract.Composition.{call_adapter}
use stellariq_contract.Composition.Confined.{tokens_below-IsLedger, test_adapters-IsConfined}
use stellariq_contract.Scenario.TwoHops.{funded, two_hops}

-- The ledger, as amounts.
abbrev pub held : Ledger → Address → Address → ℤ
held m token holder = pos (m token holder)

abbrev pub funds : Others → Address → Address → ℤ
funds w = held w.world

-- One balance, before and after.
balance_moved :
    (b c : Bool) (p n : ℕ)
    → (c ≡ true → n ≤ p)
    → pos (if b then (if c then p - n else p) + n else if c then p - n else p)
      ≡ pos p +ℤ when b (pos n) -ℤ when c (pos n)
unfolding ◌+ℤ◌ ◌-ℤ◌
balance_moved b c p n enough = ground arith

plain_transfer-some :
    (m : Ledger) (invoker token from to : Address) (n : ℕ) (m' : Ledger)
    → plain_transfer m invoker token from to (pos n) ≡ some m'
    → (credit token to n (debit token from n m) ≡ m') × (n ≤ m token from)
plain_transfer-some m invoker token from to n m' e = ground arith

plain_transfer-funds :
    (m : Ledger) (invoker token from to : Address) (x : ℤ) (m' : Ledger) (u h : Address)
    → plain_transfer m invoker token from to x ≡ some m'
    → held m' u h ≡ held m u h +ℤ when (u == token && h == to) x -ℤ when (u == token && h == from) x
plain_transfer-funds m invoker token from to (negsuc n) m' u h e = absurd (ground arith)
plain_transfer-funds m invoker token from to (pos n) m' u h e =
    let (made, enough) = plain_transfer-some m invoker token from to n m' e in
    subst
      (λ (z : Ledger).
        held z u h
        ≡ held m u h
          +ℤ when (u == token && h == to) (pos n)
          -ℤ when (u == token && h == from) (pos n))
      made
      (balance_moved (u == token && h == to) (u == token && h == from) (m u h) n
        (λ on. ground arith))

pub plain_tokens-IsLedger : IsLedger plain_tokens held
plain_tokens-IsLedger = record {
  balance_funds = λ w token holder v e. ground arith;
  transfer_funds =
      λ w invoker token from to x w' u h e. plain_transfer-funds w invoker token from to x w' u h e;
}

abbrev pub Listed : Address → Type 0
Listed token = is_token token ≡ true

plain_transfer-pays :
    (m : Ledger) (token from to : Address) (x : ℤ)
    → Listed token
    → pos 0 ≤ℤ x
    → x ≤ℤ held m token from
    → (m' : Ledger) × (plain_transfer m from token from to x ≡ some m')
plain_transfer-pays m token from to (negsuc n) listed some_paid enough = absurd (ground arith)
plain_transfer-pays m token from to (pos n) listed some_paid enough =
    (credit token to n (debit token from n m), ground arith)

pub plain_tokens-IsPaying : IsPaying plain_tokens held Listed
plain_tokens-IsPaying = record {
  reads = λ m token holder listed. ground arith;
  not_negative = λ m token holder. ground arith;
  pays = λ m token from to x listed some_paid enough.
      plain_transfer-pays m token from to x listed some_paid enough;
}

pub tokens-IsLedger : IsLedger tokens funds
tokens-IsLedger = tokens_below-IsLedger plain_tokens adapter_env held plain_tokens-IsLedger

pub adapters-IsConfined : (h : Address) → IsConfined adapters funds true h
adapters-IsConfined = test_adapters-IsConfined plain_tokens adapter_env held plain_tokens-IsLedger

pub router-IsApart : IsApart router_id (router_with funded)
router-IsApart p a e = ground arith

pub trader-IsApart : IsApart trader (router_with funded)
trader-IsApart p a e = ground arith

abbrev pub after : Router.State Others
after =
    (Router.swap tokens adapters env trader token_a token_c (pos 1000) (pos 1400) 1000000 two_hops
      (router_with funded)).1

pub two_hops_run :
    Router.swap tokens adapters env trader token_a token_c
      (pos 1000)
      (pos 1400)
      1000000
      two_hops
      (router_with funded)
    ≡ (ok (pos 1500), after)
unfolding call_adapter ◌+ℤ◌ ◌-ℤ◌ ◌*ℤ◌ checked_sub Router.next_nonce Router.swap Router.check_terms
    Router.check_route Router.settlement Router.validate_path Router.validate_from
    Router.check_protocols_from Router.token_transfer Router.execute_from Router.execute_hop
    Router.deliver Router.adapter_swap checked_mul_div TestAdapter.swap
two_hops_run = refl
