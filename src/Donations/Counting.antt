-- ===== src/Donations/Counting.antt =====
-- The totals that `Donations::donate` updates (contracts/donations/src/lib.rs): the donor's, and the
-- campaign's.
use stellariq_contract.Prelude.{
  ℕ, ◌+◌, ◌^◌, ◌<◌, ◌≡◌, [], ◌∷◌, ◌++◌, ℤ, pos, ◌+ℤ◌, IsI128, checked_add, ◌==ℤ◌, if◌then◌else◌,
  arith, put, nat_eq, pair_eq,
}
use stellariq_contract.Soroban.{Address, Env, Tokens, Outcome, ok, err, trap, entry_ttl, unwrap_or}
use stellariq_contract.Donations.Types.{
  DonationError, invalid_amount, Campaign, campaign_key, donor_total_key, State, ttl_threshold,
  ttl_extend,
}
use stellariq_contract.Donations.Defs.{count_in}

-- What the donor has given to the campaign so far.
abbrev pub previous : {W : Type 0} → Address → ℕ → State W → ℤ
previous donor campaign_id s = unwrap_or (s.donor_totals (campaign_id, donor)) (pos 0)

module _ {W : Type 0} (donor : Address) (campaign_id : ℕ) (amount : ℤ) (s : State W) where
  abbrev pub counted : Campaign → Campaign
  counted c = record c {
    donor_count =
        if previous donor campaign_id s ==ℤ pos 0 then c.donor_count + 1 else c.donor_count;
    raised = c.raised +ℤ amount;
    donation_count = c.donation_count + 1;
  }

  -- The totals that a donation leads to fit their types.
  pub record Fits (c : Campaign) : Type 0 where
    pub raised_fits : IsI128 (c.raised +ℤ amount)
    pub total_fits : IsI128 (previous donor campaign_id s +ℤ amount)
    pub donors_fit : previous donor campaign_id s ≡ pos 0 → c.donor_count + 1 < 2 ^ 32
    pub donations_fit : c.donation_count + 1 < 2 ^ 32

  abbrev pub counted_in : Campaign → State W
  counted_in c = record s {
    campaigns = put c.id (counted c) s.campaigns;
    donor_totals = put (campaign_id, donor) (previous donor campaign_id s +ℤ amount) s.donor_totals;
    extensions =
        (s.extensions
          ++ (entry_ttl (donor_total_key campaign_id donor) ttl_threshold ttl_extend ∷ []))
        ++ (entry_ttl (campaign_key c.id) ttl_threshold ttl_extend ∷ []);
  }

  abbrev pub Counted : Campaign → Outcome DonationError Campaign × State W → Type 0
  Counted c (ok u, t) = Fits c × (u ≡ counted c) × (t ≡ counted_in c)
  Counted c (err e, t) = (e ≡ invalid_amount) × (¬ IsI128 (c.raised +ℤ amount))
  Counted c (trap, t) = Unit

  pub count_in-Counted :
      (tokens : Tokens W) (env : Env) (c : Campaign)
      → Counted c (count_in tokens env c donor campaign_id amount s)
  unfolding count_in checked_add
  count_in-Counted tokens env c = ground arith
