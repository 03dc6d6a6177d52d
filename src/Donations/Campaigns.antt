-- ===== src/Donations/Campaigns.antt =====
-- `Donations::create_campaign`, `close_campaign` and `set_paused` (contracts/donations/src/lib.rs): how
-- they end, by the conditions of their checks.
use stellariq_contract.Prelude.{
  ℕ, ◌+◌, ◌^◌, ◌≤◌, ◌<◌, ◌≡◌, ◌≢◌, ◌⊎◌, true, false, Option, none, some, [], ◌∷◌, ◌++◌, len, String,
  ℤ, pos, ◌≤ℤ◌, ◌<ℤ◌, arith, put, nat_eq,
}
use stellariq_contract.Soroban.{
  Address, Env, Outcome, ok, err, trap, instance_ttl, entry_ttl, unwrap_or,
}
use stellariq_contract.Donations.Types.{
  DonationError, not_initialized, unauthorized, paused, invalid_goal, invalid_deadline,
  campaign_not_found, campaign_closed, text_too_long, Campaign, campaign_created, campaign_ended,
  campaign_key, State, event_schema_version, max_title_len, max_text_len, ttl_threshold, ttl_extend,
}
use stellariq_contract.Donations.Defs.{create_campaign, close_campaign}

module _ {W : Type 0} (env : Env) (creator beneficiary token : Address) (title description : String)
    (goal : ℤ) (deadline : ℕ) (s : State W) where
  abbrev pub next_campaign : ℕ
  next_campaign = unwrap_or s.campaign_count 0 + 1

  abbrev pub new_campaign : Campaign
  new_campaign = record {
    id = next_campaign;
    creator = creator;
    beneficiary = beneficiary;
    token = token;
    title = title;
    description = description;
    goal = goal;
    deadline = deadline;
    raised = pos 0;
    donor_count = 0;
    donation_count = 0;
    is_open = true;
    created_at = env.timestamp;
  }

  -- What `create_campaign` asks for.
  pub record IsAcceptable : Type 0 where
    pub initialized : s.admin ≢ none
    pub live : s.paused ≢ some true
    pub signed : env.signed creator ≡ true
    pub has_goal : pos 0 <ℤ goal
    pub ahead : env.timestamp < deadline
    pub titled : 0 < len title
    pub title_fits : len title ≤ max_title_len
    pub text_fits : len description ≤ max_text_len

  -- Why `create_campaign` gives up.
  abbrev pub IsUnacceptable : DonationError → Type 0
  IsUnacceptable not_initialized = s.admin ≡ none
  IsUnacceptable paused = s.paused ≡ some true
  IsUnacceptable invalid_goal = goal ≤ℤ pos 0
  IsUnacceptable invalid_deadline = deadline ≤ env.timestamp
  IsUnacceptable text_too_long =
      (len title ≡ 0) ⊎ (max_title_len < len title) ⊎ (max_text_len < len description)
  IsUnacceptable _ = ⊥

  abbrev pub created : State W
  created = record s {
    campaigns = put next_campaign new_campaign s.campaigns;
    campaign_count = some next_campaign;
    events =
        s.events
        ++ (campaign_created next_campaign creator beneficiary token goal deadline
              event_schema_version
            ∷ []);
    extensions =
        (s.extensions ++ (entry_ttl (campaign_key next_campaign) ttl_threshold ttl_extend ∷ []))
        ++ (instance_ttl ttl_threshold ttl_extend ∷ []);
  }

  abbrev pub CreateEnds : Outcome DonationError ℕ × State W → Type 0
  CreateEnds (ok id, t) =
      IsAcceptable × (next_campaign < 2 ^ 32) × (id ≡ next_campaign) × (t ≡ created)
  CreateEnds (err e, t) = (t ≡ s) × IsUnacceptable e
  CreateEnds (trap, t) =
      (t ≡ s) × ((env.signed creator ≡ false) ⊎ (IsAcceptable × (2 ^ 32 ≤ next_campaign)))

  -- `create_campaign` returns exactly where every check passes and the new id fits a `u32`. It then
  -- stores an open campaign with no donations under the next id in order, counts it, extends two
  -- lives and reports one event. Where it fails or traps nothing has changed; it fails with the
  -- error of a check that does not hold, and traps where the creator has not signed or the ids have
  -- run out.
  pub create_campaign-CreateEnds :
      CreateEnds (create_campaign env creator beneficiary token title description goal deadline s)
  unfolding create_campaign
  create_campaign-CreateEnds = ground arith

module _ {W : Type 0} (env : Env) (caller : Address) (id : ℕ) (s : State W) where
  abbrev pub looked_up : State W
  looked_up = record s {
    extensions = s.extensions ++ (entry_ttl (campaign_key id) ttl_threshold ttl_extend ∷ []);
  }

  abbrev pub IsUnclosable : Option Campaign → DonationError → Type 0
  IsUnclosable none e = e ≡ campaign_not_found
  IsUnclosable (some c) unauthorized = (caller ≢ c.creator) × (s.admin ≢ some caller)
  IsUnclosable (some c) not_initialized = (caller ≢ c.creator) × (s.admin ≡ none)
  IsUnclosable (some c) campaign_closed = c.is_open ≡ false
  IsUnclosable (some c) _ = ⊥

  abbrev pub closed : Campaign → State W
  closed c = record s {
    campaigns = put c.id (record c { is_open = false }) s.campaigns;
    events = s.events ++ (campaign_ended id c.raised event_schema_version ∷ []);
    extensions =
        (s.extensions ++ (entry_ttl (campaign_key id) ttl_threshold ttl_extend ∷ []))
        ++ (entry_ttl (campaign_key c.id) ttl_threshold ttl_extend ∷ []);
  }

  abbrev pub Closable : Option Campaign → State W → Type 0
  Closable none t = ⊥
  Closable (some c) t =
      ((caller ≡ c.creator) ⊎ (s.admin ≡ some caller)) × (c.is_open ≡ true) × (t ≡ closed c)

  abbrev pub CloseEnds : Outcome DonationError (Unit {0}) × State W → Type 0
  CloseEnds (ok _, t) = (env.signed caller ≡ true) × Closable (s.campaigns id) t
  CloseEnds (err e, t) = (env.signed caller ≡ true) × IsUnclosable (s.campaigns id) e
  CloseEnds (trap, t) = (env.signed caller ≡ false) × (t ≡ s)

  -- `close_campaign` traps without the caller's signature. It returns only where the caller is the
  -- campaign's creator or the admin and the campaign is open, and then marks it closed and reports its
  -- sum; otherwise it fails, with the error of the check that does not hold.
  pub close_campaign-CloseEnds : CloseEnds (close_campaign env caller id s)
  unfolding close_campaign
  close_campaign-CloseEnds = ground arith
