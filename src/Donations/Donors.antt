-- ===== src/Donations/Donors.antt =====
-- How many donors a campaign has by its receipts (contracts/donations/src/lib.rs, `donor_count`): a
-- receipt counts where it is the donor's first for the campaign.
use stellariq_contract.Prelude.{
  ℕ, zero, suc, ◌+◌, ◌<◌, ◌≡◌, ◌⊎◌, inl, inr, refl, subst, Bool, ◌&&◌, Option, none, some, ◌==◌,
  if◌then◌else◌, ℤ, pos, ◌+ℤ◌, ◌<ℤ◌, Map, put, put_self, put_ne, nat_eq, arith, Bool-cases,
}
use stellariq_contract.Donations.Types.{Receipt}
use stellariq_contract.Donations.Totals.{received, number, by_donor, number-put, amount_if, one_if}

abbrev pub new_if : ℕ → Map ℕ Receipt → ℕ → Option Receipt → ℕ
new_if k m n none = 0
new_if k m n (some r) =
    if (r.campaign_id == k) && (number (by_donor k r.donor) m n == 0) then 1 else 0

unfoldable pub newcomers : ℕ → Map ℕ Receipt → ℕ → ℕ
newcomers k m zero = 0
newcomers k m (suc n) = newcomers k m n + new_if k m n (m (suc n))

module _ (k : ℕ) (r : Receipt) (m : Map ℕ Receipt) where
  new_if-put : (n j : ℕ) (o : Option Receipt) → n < j → new_if k (put j r m) n o ≡ new_if k m n o
  new_if-put n j none h = refl
  new_if-put n j (some q) h = rw (number-put (by_donor k q.donor) r m n j h) refl

  newcomers-put : (n j : ℕ) → n < j → newcomers k (put j r m) n ≡ newcomers k m n
  unfolding newcomers
  newcomers-put zero j h = refl
  newcomers-put (suc n) j h =
      rw
        (
          newcomers-put n j (omega arith),
          put_ne j (suc n) r m (ground arith),
          new_if-put n j (m (suc n)) (omega arith),
        )
        refl

  newcomers-suc :
      (n : ℕ) → newcomers k (put (suc n) r m) (suc n) ≡ newcomers k m n + new_if k m n (some r)
  unfolding newcomers
  newcomers-suc n =
      rw
        (
          newcomers-put n (suc n) (omega arith),
          put_self (suc n) r m,
          new_if-put n (suc n) (some r) (omega arith),
        )
        refl

  pub newcomers-next :
      (n : ℕ) → newcomers k (put (n + 1) r m) (n + 1) ≡ newcomers k m n + new_if k m n (some r)
  newcomers-next n =
      let count : suc n ≡ n + 1 = omega arith in
      subst (λ j. newcomers k (put j r m) j ≡ newcomers k m n + new_if k m n (some r)) count
        (newcomers-suc n)

-- With positive amounts, a sum is nothing exactly where there is nothing to add.
abbrev pub Agrees : ℤ → ℕ → Type 0
Agrees x n = ((x ≡ pos 0) × (n ≡ 0)) ⊎ ((pos 0 <ℤ x) × (0 < n))

Agrees-same : (x : ℤ) (n : ℕ) → Agrees x n → Agrees (x +ℤ pos 0) (n + 0)
unfolding ◌+ℤ◌
Agrees-same x n a = ground arith

Agrees-more : (x y : ℤ) (n : ℕ) → pos 0 <ℤ y → Agrees x n → Agrees (x +ℤ y) (n + 1)
unfolding ◌+ℤ◌
Agrees-more x y n h a = ground arith

Agrees-next :
    (test : Receipt → Bool) (x : ℤ) (n : ℕ) (o : Option Receipt)
    → ((r : Receipt) → o ≡ some r → pos 0 <ℤ r.amount)
    → Agrees x n
    → Agrees (x +ℤ amount_if test o) (n + one_if test o)
Agrees-next test x n none h a = Agrees-same x n a
Agrees-next test x n (some r) h a = elim (Bool-cases (test r)) [
  | inl passes ↦ rw passes (Agrees-more x r.amount n (h r refl) a)
  | inr fails ↦ rw fails (Agrees-same x n a)
]

pub received-Agrees :
    (test : Receipt → Bool) (m : Map ℕ Receipt)
    → ((i : ℕ) (r : Receipt) → m i ≡ some r → pos 0 <ℤ r.amount)
    → (n : ℕ) → Agrees (received test m n) (number test m n)
unfolding received number
received-Agrees test m h zero = inl (refl, refl)
received-Agrees test m h (suc n) =
    Agrees-next test (received test m n) (number test m n) (m (suc n)) (h (suc n))
      (received-Agrees test m h n)
