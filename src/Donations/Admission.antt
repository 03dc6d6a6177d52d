-- ===== src/Donations/Admission.antt =====
-- The checks of `Donations::donate` (contracts/donations/src/lib.rs): what they ask for, and which of
-- them an error stands for.
use stellariq_contract.Prelude.{
  ℕ, ◌≤◌, ◌<◌, ◌≡◌, ◌≢◌, ◌⊎◌, true, false, Option, none, some, [], ◌∷◌, ◌++◌, len, String, ℤ, pos,
  ◌≤ℤ◌, ◌<ℤ◌, ◌+ℤ◌, IsI128, arith, nat_eq, pair_eq,
}
use stellariq_contract.Soroban.{Address, Env, Tokens, Outcome, ok, err, trap, entry_ttl}
use stellariq_contract.Donations.Types.{
  DonationError, not_initialized, paused, invalid_amount, campaign_not_found, campaign_closed,
  campaign_expired, text_too_long, self_donation, Campaign, campaign_key, State, max_text_len,
  ttl_threshold, ttl_extend,
}
use stellariq_contract.Donations.Defs.{admit}

module _ {W : Type 0} (tokens : Tokens W) (env : Env) (donor : Address) (campaign_id : ℕ)
    (amount : ℤ) (memo : String) (s : State W) where
  -- What `donate` asks of the contract, its caller and the campaign.
  pub record IsAdmitted (c : Campaign) : Type 0 where
    pub initialized : s.admin ≢ none
    pub live : s.paused ≢ some true
    pub signed : env.signed donor ≡ true
    pub positive : pos 0 <ℤ amount
    pub brief : len memo ≤ max_text_len
    pub found : s.campaigns campaign_id ≡ some c
    pub is_open : c.is_open ≡ true
    pub in_time : env.timestamp ≤ c.deadline
    pub another : donor ≢ c.beneficiary

  -- A condition on the campaign, which is on record.
  abbrev pub Of : (Campaign → Type 0) → Option Campaign → Type 0
  Of P none = ⊥
  Of P (some c) = P c

  -- Why `donate` gives up.
  abbrev pub IsRefused : DonationError → Type 0
  IsRefused not_initialized = s.admin ≡ none
  IsRefused paused = s.paused ≡ some true
  IsRefused invalid_amount =
      (amount ≤ℤ pos 0) ⊎ Of (λ c. ¬ IsI128 (c.raised +ℤ amount)) (s.campaigns campaign_id)
  IsRefused text_too_long = max_text_len < len memo
  IsRefused campaign_not_found = s.campaigns campaign_id ≡ none
  IsRefused campaign_closed = Of (λ c. c.is_open ≡ false) (s.campaigns campaign_id)
  IsRefused campaign_expired = Of (λ c. c.deadline < env.timestamp) (s.campaigns campaign_id)
  IsRefused self_donation = Of (λ c. donor ≡ c.beneficiary) (s.campaigns campaign_id)
  IsRefused _ = ⊥

  abbrev pub touched : State W
  touched = record s {
    extensions =
        s.extensions ++ (entry_ttl (campaign_key campaign_id) ttl_threshold ttl_extend ∷ []);
  }

  abbrev pub Admitted : Outcome DonationError Campaign × State W → Type 0
  Admitted (ok c, t) = (t ≡ touched) × IsAdmitted c
  Admitted (err e, t) = IsRefused e
  Admitted (trap, t) = Unit

  pub admit-Admitted : Admitted (admit tokens env donor campaign_id amount memo s)
  unfolding admit
  admit-Admitted = ground arith
