-- ===== src/Fixture/Amounts.antt =====
-- The amounts of one hop on the network of contracts/router/src/fixture.rs.
use stellariq_contract.Prelude.{
  nat_eq, string_eq, ◌≡◌, ◌≢◌, Bool, true, false, some, ◌==◌, ℤ, pos, negsuc, ◌+ℤ◌, ◌-ℤ◌, ◌≤ℤ◌,
  ◌<ℤ◌, IsI128, arith, int_laws, parts_eq, ◌*ℤ◌, checked_mul, checked_div,
}
use stellariq_contract.Soroban.{Address}
use stellariq_contract.Soroban.Sep41.{when}
use stellariq_contract.Interfaces.{checked_mul_div}

pub par : (x : ℤ) → pos 0 <ℤ x → IsI128 x → checked_mul_div x (pos 1) (pos 1) ≡ some x
unfolding checked_mul_div checked_mul checked_div ◌*ℤ◌
par (pos n) gain fits = ground arith
par (negsuc n) gain fits = absurd (ground arith)

pub spent :
    (b c : Bool) (p q x : ℤ) → b ≡ true → c ≡ false → p -ℤ when b x +ℤ when c x ≡ q → q ≡ p -ℤ x
spent true true p q x on off e = absurd (ground arith)
spent true false p q x on off e = omega (int_laws, parts_eq e)
spent false c p q x on off e = absurd (ground arith)

pub gained :
    (b c : Bool) (p q x : ℤ) → b ≡ false → c ≡ true → p -ℤ when b x +ℤ when c x ≡ q → q ≡ p +ℤ x
gained false true p q x off on e = omega (int_laws, parts_eq e)
gained false false p q x off on e = absurd (ground arith)
gained true c p q x off on e = absurd (ground arith)

pub tests_apart : (a b : Address) → a ≢ b → (a == b) ≡ false
tests_apart a b other = ground arith

pub one_demand :
    (u t : Address) (a : ℤ) (held : Address → ℤ)
    → pos 0 ≤ℤ held u
    → a ≤ℤ held t
    → when (u == t) a +ℤ pos 0 ≤ℤ held u
unfolding ◌+ℤ◌
one_demand u t a held some_held enough = ground arith
