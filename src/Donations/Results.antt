-- ===== src/Donations/Results.antt =====
-- What the results of `Donations::donate` (contracts/donations/src/lib.rs) tell: the receipt id, and
-- each error.
use stellariq_contract.Prelude.{ℕ, ◌^◌, ◌<◌, ◌≡◌, subst, some, String, ℤ, nat_eq, pair_eq}
use stellariq_contract.Soroban.{Address, Env, Tokens, ok, err}
use stellariq_contract.Donations.Types.{DonationError, Campaign, State}
use stellariq_contract.Donations.Defs.{donate}
use stellariq_contract.Donations.Counting.{Fits}
use stellariq_contract.Donations.Admission.{IsAdmitted, IsRefused}
use stellariq_contract.Donations.Donating.{next_receipt, donated, Ends, donate-Ends}

module _ {W : Type 0} (tokens : Tokens W) (env : Env) (donor : Address) (campaign_id : ℕ)
    (amount : ℤ) (memo : String) (s : State W) where
  -- Where `donate` returns a receipt id, every check has passed, with the campaign found; the token
  -- contract has moved exactly `amount` from the donor straight to the beneficiary; the id is the next
  -- in order; and of the contract's own storage exactly this has changed: the campaign's counters and
  -- sum, the donor's total, the new receipt, the receipt count, one event and four TTL extensions.
  pub donate_records :
      (id : ℕ) (t : State W)
      → donate tokens env donor campaign_id amount memo s ≡ (ok id, t)
      → (c : Campaign) × IsAdmitted tokens env donor campaign_id amount memo s c
        × Fits donor campaign_id amount s c
        × (next_receipt tokens env donor campaign_id amount memo s < 2 ^ 64)
        × (tokens.transfer s.world env.contract c.token donor c.beneficiary amount ≡ some t.world)
        × (id ≡ next_receipt tokens env donor campaign_id amount memo s)
        × (t ≡ donated tokens env donor campaign_id amount memo s c t.world)
  donate_records id t h =
      subst (Ends tokens env donor campaign_id amount memo s) h
        (donate-Ends tokens env donor campaign_id amount memo s)

  -- Where `donate` fails, the condition that its error stands for holds; `InvalidAmount` also stands for
  -- a sum of donations that leaves the `i128` range.
  pub donate_refuses :
      (e : DonationError) (t : State W)
      → donate tokens env donor campaign_id amount memo s ≡ (err e, t)
      → IsRefused tokens env donor campaign_id amount memo s e
  donate_refuses e t h =
      subst (Ends tokens env donor campaign_id amount memo s) h
        (donate-Ends tokens env donor campaign_id amount memo s)
