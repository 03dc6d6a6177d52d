-- ===== src/Donations/Exactness.antt =====
-- When `Donations::donate` returns, and what (contracts/donations/src/lib.rs).
use stellariq_contract.Prelude.{
  ℕ, ◌<◌, ◌^◌, ◌≡◌, ◌↔◌, refl, sym, ◌∙◌, String, some, ℤ, checked_add, arith,
}
use mathlib.Core.Path.{ap₂}
use stellariq_contract.Soroban.{Address, Env, Tokens, Contract, Outcome, ok, bind_ok, ◌>>=◌, ◌>>◌}
use stellariq_contract.Donations.Types.{DonationError, Campaign, State}
use stellariq_contract.Donations.Defs.{admit, token_transfer, count_in, issue_receipt, donate}
use stellariq_contract.Donations.Admission.{IsAdmitted, touched}
use stellariq_contract.Donations.Counting.{Fits, counted, counted_in}
use stellariq_contract.Donations.Donating.{next_receipt, donated, receipted}
use stellariq_contract.Donations.Results.{donate_records}

module _ {W : Type 0} (tokens : Tokens W) (env : Env) (donor : Address) (campaign_id : ℕ)
    (amount : ℤ) (memo : String) (s : State W) where
  admit_pass :
      (c : Campaign)
      → IsAdmitted tokens env donor campaign_id amount memo s c
      → admit tokens env donor campaign_id amount memo s
        ≡ (ok c, touched tokens env donor campaign_id amount memo s)
  unfolding admit
  admit_pass c h = ground arith

  count_in_pass :
      (c : Campaign) (t : State W)
      → Fits donor campaign_id amount t c
      → count_in tokens env c donor campaign_id amount t
        ≡ (ok (counted donor campaign_id amount t c), counted_in donor campaign_id amount t c)
  unfolding count_in checked_add
  count_in_pass c t h = ground arith

  issue_receipt_pass :
      (c : Campaign) (t : State W)
      → t.receipt_count ≡ s.receipt_count
      → next_receipt tokens env donor campaign_id amount memo s < 2 ^ 64
      → issue_receipt tokens env c donor campaign_id amount memo t ≡ (
        ok (next_receipt tokens env donor campaign_id amount memo s),
        receipted tokens env donor campaign_id amount memo s c t,
      )
  unfolding issue_receipt
  issue_receipt_pass c t h fits = ground arith

  transfer_pass :
      (token to : Address) (t : State W) (w : W)
      → tokens.transfer t.world env.contract token donor to amount ≡ some w
      → token_transfer tokens env token donor to amount t ≡ (ok tt, record t { world = w })
  transfer_pass token to t w h = ground arith

  abbrev next : ℕ
  next = next_receipt tokens env donor campaign_id amount memo s

  abbrev goal : Campaign → W → Outcome DonationError ℕ × State W
  goal c w = (ok next, donated tokens env donor campaign_id amount memo s c w)

  -- Where nothing stands against it, a donation goes through.
  donate_returns :
      (c : Campaign) (w : W)
      → IsAdmitted tokens env donor campaign_id amount memo s c
      → Fits donor campaign_id amount s c
      → next < 2 ^ 64
      → tokens.transfer s.world env.contract c.token donor c.beneficiary amount ≡ some w
      → donate tokens env donor campaign_id amount memo s ≡ goal c w
  unfolding donate
  donate_returns c w h fits left moved =
      let t = touched tokens env donor campaign_id amount memo s in
      let paid : State W = record t { world = w } in
      let issue : Campaign → Contract (State W) DonationError ℕ =
        λ u. issue_receipt tokens env u donor campaign_id amount memo in
      let count : Contract (State W) DonationError ℕ =
        count_in tokens env c donor campaign_id amount >>= issue in
      let Goal = λ (r : Outcome DonationError ℕ × State W). r ≡ goal c w in
      bind_ok Goal (admit tokens env donor campaign_id amount memo)
        (λ d.
          token_transfer tokens env d.token donor d.beneficiary amount
          >> (count_in tokens env d donor campaign_id amount >>= issue))
        s c t (admit_pass c h)
        (bind_ok Goal (token_transfer tokens env c.token donor c.beneficiary amount) (λ _. count) t
          tt paid (transfer_pass c.token c.beneficiary t w moved)
          (bind_ok Goal (count_in tokens env c donor campaign_id amount) issue paid
            (counted donor campaign_id amount paid c) (counted_in donor campaign_id amount paid c)
            (count_in_pass c paid (record {
              raised_fits = fits.raised_fits;
              total_fits = fits.total_fits;
              donors_fit = fits.donors_fit;
              donations_fit = fits.donations_fit;
            }))
            (issue_receipt_pass (counted donor campaign_id amount paid c)
              (counted_in donor campaign_id amount paid c) refl left)))

  -- All checks pass, the totals fit their types, a `u64` holds the next receipt's id, the token contract moves the
  -- amount, and id and storage are those of the donation.
  abbrev pub Succeeds : ℕ → State W → Type 0
  Succeeds id t =
      (c : Campaign) × IsAdmitted tokens env donor campaign_id amount memo s c
      × Fits donor campaign_id amount s c
      × (next < 2 ^ 64)
      × (tokens.transfer s.world env.contract c.token donor c.beneficiary amount ≡ some t.world)
      × (id ≡ next)
      × (t ≡ donated tokens env donor campaign_id amount memo s c t.world)

  -- `donate` returns a receipt id, and leaves a storage, exactly where all checks pass with the campaign found, the
  -- campaign's and the donor's totals fit their types, a `u64` holds the next receipt id, the token contract moves the
  -- amount from the donor to the beneficiary, the id is the next one, and the storage is the one with the receipt recorded.
  pub donate_exactly :
      (id : ℕ) (t : State W)
      → (donate tokens env donor campaign_id amount memo s ≡ (ok id, t)) ↔ Succeeds id t
  donate_exactly id t = (
    donate_records tokens env donor campaign_id amount memo s id t,
    λ (c, h, fits, left, moved, same, recorded).
        donate_returns c t.world h fits left moved
        ∙ ap₂ (λ a b. (ok a, b)) (sym same) (sym recorded),
  )
