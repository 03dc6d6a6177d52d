-- ===== src/Donations/Sizes.antt =====
-- The numbers that the donations contract stores (contracts/donations/src/lib.rs) fit their machine
-- types.
use stellariq_contract.Prelude.{
  ℕ, ◌<◌, ◌^◌, ◌≡◌, some, String, ℤ, pos, IsI128, arith, nat_eq, pair_eq, Option, Bool, true, false,
  ◌==◌, if◌then◌else◌, subst,
}
use mathlib.Core.Option.{some-injective}
use stellariq_contract.Soroban.{Address, Env, Tokens, unwrap_or}
use stellariq_contract.Donations.Types.{Campaign, State}
use stellariq_contract.Donations.Defs.{constructor}
use stellariq_contract.Donations.Campaigns.{created, closed, next_campaign, new_campaign}
use stellariq_contract.Donations.Counting.{Fits, counted}
use stellariq_contract.Donations.Donating.{donated, next_receipt}
use stellariq_contract.Donations.Steps.{Step, stays, pauses, creates, closes, donates, perform-Step}
use stellariq_contract.Donations.Entries.{perform, Reach, deployed, invoked, outside}

-- The sum of a campaign is an `i128`, and its counts are `u32`s.
pub record IsCounted (c : Campaign) : Type 0 where
  pub raised : IsI128 c.raised
  pub donors : c.donor_count < 2 ^ 32
  pub donations : c.donation_count < 2 ^ 32

pub record IsSized {W : Type 0} (s : State W) : Type 0 where
  pub campaigns : (k : ℕ) (c : Campaign) → s.campaigns k ≡ some c → IsCounted c
  pub totals : (k : ℕ) (donor : Address) → IsI128 (unwrap_or (s.donor_totals (k, donor)) (pos 0))
  pub last_campaign : unwrap_or s.campaign_count 0 < 2 ^ 32
  pub last_receipt : unwrap_or s.receipt_count 0 < 2 ^ 64

either-IsCounted :
    (b : Bool) (v c : Campaign) (o : Option Campaign)
    → IsCounted v
    → (o ≡ some c → IsCounted c)
    → (if b then some v else o) ≡ some c
    → IsCounted c
either-IsCounted true v c o new old e = subst IsCounted (some-injective v c e) new
either-IsCounted false v c o new old e = old e

counted-IsCounted :
    {W : Type 0} (donor : Address) (campaign_id : ℕ) (amount : ℤ) (s : State W) (c : Campaign)
    → Fits donor campaign_id amount s c
    → IsCounted c
    → IsCounted (counted donor campaign_id amount s c)
counted-IsCounted donor campaign_id amount s c fits h = record {
  raised = fits.raised_fits;
  donors = ground (arith, h.donors, fits.donors_fit);
  donations = fits.donations_fit;
}

module _ {W : Type 0} (tokens : Tokens W) (env : Env) (s : State W) where
  created-IsSized :
      (creator beneficiary token : Address) (title description : String) (goal : ℤ) (deadline : ℕ)
      → next_campaign env creator beneficiary token title description goal deadline s < 2 ^ 32
      → IsSized s
      → IsSized (created env creator beneficiary token title description goal deadline s)
  created-IsSized creator beneficiary token title description goal deadline fits h = record {
    campaigns = λ k c e.
        either-IsCounted
          (next_campaign env creator beneficiary token title description goal deadline s == k)
          (new_campaign env creator beneficiary token title description goal deadline s) c
          (s.campaigns k)
          (record { raised = ground arith; donors = ground arith; donations = ground arith })
          (h.campaigns k c) e;
    totals = h.totals;
    last_campaign = fits;
    last_receipt = h.last_receipt;
  }

  closed-IsSized :
      (caller : Address) (id : ℕ) (c : Campaign)
      → s.campaigns id ≡ some c
      → IsSized s
      → IsSized (closed env caller id s c)
  closed-IsSized caller id c found h = record {
    campaigns = λ k d e.
        let old = h.campaigns id c found in
        either-IsCounted (c.id == k) (record c { is_open = false }) d (s.campaigns k)
          (record { raised = old.raised; donors = old.donors; donations = old.donations })
          (h.campaigns k d) e;
    totals = h.totals;
    last_campaign = h.last_campaign;
    last_receipt = h.last_receipt;
  }

  donated-IsSized :
      (donor : Address) (campaign_id : ℕ) (amount : ℤ) (memo : String) (c : Campaign) (w : W)
      → s.campaigns campaign_id ≡ some c
      → Fits donor campaign_id amount s c
      → next_receipt tokens env donor campaign_id amount memo s < 2 ^ 64
      → IsSized s
      → IsSized (donated tokens env donor campaign_id amount memo s c w)
  donated-IsSized donor campaign_id amount memo c w found fits left h = record {
    campaigns = λ k d e.
        either-IsCounted (c.id == k) (counted donor campaign_id amount s c) d (s.campaigns k)
          (counted-IsCounted donor campaign_id amount s c fits (h.campaigns campaign_id c found))
          (h.campaigns k d) e;
    totals = λ k d. ground (arith, h.totals k d, fits.total_fits);
    last_campaign = h.last_campaign;
    last_receipt = left;
  }

  Step-IsSized : (t : State W) → Step tokens env s t → IsSized s → IsSized t
  Step-IsSized t stays h = h
  Step-IsSized t (pauses halted admin _ _) h = record {
    campaigns = h.campaigns;
    totals = h.totals;
    last_campaign = h.last_campaign;
    last_receipt = h.last_receipt;
  }
  Step-IsSized t (creates creator beneficiary token title description goal deadline _ fits) h =
      created-IsSized creator beneficiary token title description goal deadline fits h
  Step-IsSized t (closes caller id c _ found _ _) h = closed-IsSized caller id c found h
  Step-IsSized t (donates donor campaign_id amount memo c w admitted fits left _) h =
      donated-IsSized donor campaign_id amount memo c w admitted.found fits left h

module _ {W : Type 0} (tokens : Tokens W) (admin : Address) where
  -- In every storage that the donations contract can reach, each campaign's sum is an `i128` and its counts
  -- are `u32`s, each donor's total is an `i128`, and the last ids are a `u32` and a `u64`.
  pub Reach-IsSized : (t : State W) → Reach tokens admin t → IsSized t
  unfolding constructor
  Reach-IsSized t (deployed w) = record {
    campaigns = λ k c e. absurd (ground arith);
    totals = λ k donor. ground arith;
    last_campaign = ground arith;
    last_receipt = ground arith;
  }
  Reach-IsSized t (invoked {t = s} env e r) =
      Step-IsSized tokens env s (perform tokens env e s) (perform-Step tokens env s e)
        (Reach-IsSized s r)
  Reach-IsSized t (outside {t = s} w r) =
      let h = Reach-IsSized s r in
      record {
        campaigns = h.campaigns;
        totals = h.totals;
        last_campaign = h.last_campaign;
        last_receipt = h.last_receipt;
      }
