-- ===== src/Soroban/Payments.antt =====
-- What one payment does to the balances of a ledger that keeps to SEP-41.
use stellariq_contract.Prelude.{
  Bool, true, false, ◌&&◌, ◌==◌, ◌≡◌, ◌≢◌, some, ℤ, pos, ◌+ℤ◌, ◌-ℤ◌, ◌≤ℤ◌, ◌<ℤ◌, arith, int_laws,
  parts_eq,
}
use stellariq_contract.Soroban.Host.{Address, Tokens}
use stellariq_contract.Soroban.Sep41.{when, IsLedger}

never_falls_by :
    (b c : Bool) (p q x : ℤ) → c ≡ false → pos 0 ≤ℤ x → q ≡ p +ℤ when b x -ℤ when c x → p ≤ℤ q
never_falls_by true true p q x off some_paid e = absurd (ground arith)
never_falls_by true false p q x off some_paid e = omega (int_laws, parts_eq e, some_paid)
never_falls_by false true p q x off some_paid e = absurd (ground arith)
never_falls_by false false p q x off some_paid e = omega (int_laws, parts_eq e)

receives_by :
    (b c : Bool) (p q x : ℤ) → b ≡ true → c ≡ false → q ≡ p +ℤ when b x -ℤ when c x → q ≡ p +ℤ x
receives_by true true p q x on off e = absurd (ground arith)
receives_by true false p q x on off e = omega (int_laws, parts_eq e)
receives_by false c p q x on off e = absurd (ground arith)

pays_by : (b c : Bool) (p q x : ℤ) → b ≡ false → q ≡ p +ℤ when b x -ℤ when c x → q ≡ p -ℤ when c x
pays_by true c p q x off e = absurd (ground arith)
pays_by false true p q x off e = omega (int_laws, parts_eq e)
pays_by false false p q x off e = omega (int_laws, parts_eq e)

pub covered : (p q x : ℤ) → pos 0 ≤ℤ p → q ≡ p +ℤ x → x ≤ℤ q
covered p q x h e = omega (int_laws, parts_eq e, h)

pub no_less : (a p q : ℤ) → a ≤ℤ p → p ≤ℤ q → a ≤ℤ q
no_less a p q h k = omega (int_laws, h, k)

pub weaken : (x : ℤ) → pos 0 <ℤ x → pos 0 ≤ℤ x
weaken x h = omega (int_laws, h)

pub untouched :
    (b c : Bool) (p q x : ℤ) → b ≡ false → c ≡ false → q ≡ p +ℤ when b x -ℤ when c x → p ≡ q
untouched true c p q x e n k = cc
untouched false true p q x e n k = cc
untouched false false p q x e n k = omega (int_laws, parts_eq k)

-- One payment, from the side of a bystander, of the payee and of the payer.
module _ {W : Type 0} (tokens : Tokens W) (funds : W → Address → Address → ℤ)
    (ledger : IsLedger tokens funds) (w w' : W) (invoker token from to : Address) (x : ℤ)
    (moved : tokens.transfer w invoker token from to x ≡ some w') where
  open ledger use {transfer_funds}

  pub never_falls : (u h : Address) → h ≢ from → pos 0 ≤ℤ x → funds w u h ≤ℤ funds w' u h
  never_falls u h other some_paid =
      never_falls_by (u == token && h == to) (u == token && h == from) (funds w u h) (funds w' u h)
        x (ground arith) some_paid (transfer_funds w invoker token from to x w' u h moved)

  pub receives : to ≢ from → funds w' token to ≡ funds w token to +ℤ x
  receives other =
      receives_by (token == token && to == to) (token == token && to == from) (funds w token to)
        (funds w' token to) x (ground arith) (ground arith)
        (transfer_funds w invoker token from to x w' token to moved)

  pub pays_out :
      (u : Address)
      → to ≢ from
      → funds w' u from ≡ funds w u from -ℤ when (u == token && from == from) x
  pays_out u other =
      pays_by (u == token && from == to) (u == token && from == from) (funds w u from)
        (funds w' u from) x (ground arith)
        (transfer_funds w invoker token from to x w' u from moved)
