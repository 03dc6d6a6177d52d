-- ===== src/Donations/Totals.antt =====
-- Sums over the receipts on record (contracts/donations/src/lib.rs, `DataKey::Receipt`): what the
-- contract's counters should say.
use stellariq_contract.Prelude.{
  ℕ, zero, suc, ◌+◌, ◌<◌, ◌≡◌, Bool, ◌&&◌, Option, none, some, ◌==◌, if◌then◌else◌, ℤ, pos, ◌+ℤ◌,
  Map, put, put_self, put_ne, nat_eq, arith, refl, subst,
}
use stellariq_contract.Soroban.{Address}
use stellariq_contract.Donations.Types.{Receipt}

abbrev pub amount_if : (Receipt → Bool) → Option Receipt → ℤ
amount_if test none = pos 0
amount_if test (some r) = if test r then r.amount else pos 0

abbrev pub one_if : (Receipt → Bool) → Option Receipt → ℕ
one_if test none = 0
one_if test (some r) = if test r then 1 else 0

-- The sum of the amounts, and the number, of the receipts from 1 to `n` that pass the test.
unfoldable pub received : (Receipt → Bool) → Map ℕ Receipt → ℕ → ℤ
received test m zero = pos 0
received test m (suc n) = received test m n +ℤ amount_if test (m (suc n))

unfoldable pub number : (Receipt → Bool) → Map ℕ Receipt → ℕ → ℕ
number test m zero = 0
number test m (suc n) = number test m n + one_if test (m (suc n))

abbrev pub for_campaign : ℕ → Receipt → Bool
for_campaign k r = r.campaign_id == k

abbrev pub by_donor : ℕ → Address → Receipt → Bool
by_donor k d r = (r.campaign_id == k) && (r.donor == d)

suc_eq : (n : ℕ) → suc n ≡ n + 1
suc_eq n = omega arith

module _ (test : Receipt → Bool) (r : Receipt) (m : Map ℕ Receipt) where
  received-put : (n k : ℕ) → n < k → received test (put k r m) n ≡ received test m n
  unfolding received
  received-put zero k h = refl
  received-put (suc n) k h =
      rw (received-put n k (omega arith), put_ne k (suc n) r m (ground arith)) refl

  pub number-put : (n k : ℕ) → n < k → number test (put k r m) n ≡ number test m n
  unfolding number
  number-put zero k h = refl
  number-put (suc n) k h =
      rw (number-put n k (omega arith), put_ne k (suc n) r m (ground arith)) refl

  received-suc :
      (n : ℕ)
      → received test (put (suc n) r m) (suc n) ≡ received test m n +ℤ amount_if test (some r)
  unfolding received
  received-suc n = rw (received-put n (suc n) (omega arith), put_self (suc n) r m) refl

  pub received-next :
      (n : ℕ)
      → received test (put (n + 1) r m) (n + 1) ≡ received test m n +ℤ amount_if test (some r)
  received-next n =
      subst (λ k. received test (put k r m) k ≡ received test m n +ℤ amount_if test (some r))
        (suc_eq n) (received-suc n)

  number-suc :
      (n : ℕ) → number test (put (suc n) r m) (suc n) ≡ number test m n + one_if test (some r)
  unfolding number
  number-suc n = rw (number-put n (suc n) (omega arith), put_self (suc n) r m) refl

  pub number-next :
      (n : ℕ) → number test (put (n + 1) r m) (n + 1) ≡ number test m n + one_if test (some r)
  number-next n =
      subst (λ k. number test (put k r m) k ≡ number test m n + one_if test (some r)) (suc_eq n)
        (number-suc n)
