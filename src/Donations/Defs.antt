-- ===== src/Donations/Defs.antt =====
-- contracts/donations/src/lib.rs, the entry points.
use stellariq_contract.Prelude.{
  ℕ, Bool, false, true, not, ◌||◌, none, some, len, String, ltb, leb, ◌==◌, if◌then◌else◌, ℤ, pos,
  leb_ℤ, ◌==ℤ◌, checked_add, put, nat_eq, pair_eq,
}
use stellariq_contract.Soroban.{
  Address, Env, Tokens, Contract, ok, trap, pure, fail_if, gets, ok_or, or_trap, modify, unwrap_or,
  require_auth, ◌>>=◌, ◌>>◌,
}
use stellariq_contract.Donations.Types.{
  DonationError, unauthorized, invalid_amount, invalid_goal, invalid_deadline, campaign_closed,
  campaign_expired, text_too_long, receipt_not_found, self_donation, Campaign, Receipt,
  campaign_created, donation_made, campaign_ended, receipt_key, donor_total_key, State,
  event_schema_version, max_title_len, max_text_len, add_u32, add_u64, publish, extend_instance,
  extend_entry, read_admin, ensure_live, put_campaign, campaign_count, receipt_count, get_campaign,
}

module _ {W : Type 0} where
  -- `__constructor`, run once by the host when it deploys the contract
  unfoldable pub constructor : Address → Contract (State W) DonationError (Unit {0})
  constructor admin = do
    modify (λ s. record s { admin = some admin })
    modify (λ s. record s { paused = some false })
    modify (λ s. record s { campaign_count = some 0 })
    modify (λ s. record s { receipt_count = some 0 })
    extend_instance

  unfoldable pub admin_address : Contract (State W) DonationError Address
  admin_address = read_admin

  unfoldable pub get_receipt : ℕ → Contract (State W) DonationError Receipt
  get_receipt id = do ok_or (← gets (λ s. s.receipts id)) receipt_not_found

  unfoldable pub donor_total : ℕ → Address → Contract (State W) DonationError ℤ
  donor_total campaign_id donor =
      gets (λ s. unwrap_or (s.donor_totals (campaign_id, donor)) (pos 0))

module _ {W : Type 0} (env : Env) where
  unfoldable pub set_paused : Bool → Contract (State W) DonationError (Unit {0})
  set_paused halted = do
    require_auth env (← read_admin)
    modify (λ s. record s { paused = some halted })

  unfoldable pub create_campaign :
      Address → Address → Address → String → String → ℤ → ℕ → Contract (State W) DonationError ℕ
  create_campaign creator beneficiary token title description goal deadline = do
    ensure_live
    require_auth env creator
    fail_if (leb_ℤ goal (pos 0)) invalid_goal
    let now = env.timestamp
    fail_if (leb deadline now) invalid_deadline
    fail_if (len title == 0 || ltb max_title_len (len title) || ltb max_text_len (len description))
        text_too_long
    id ← or_trap (add_u32 (← campaign_count) 1)
    put_campaign (record {
      id = id;
      creator = creator;
      beneficiary = beneficiary;
      token = token;
      title = title;
      description = description;
      goal = goal;
      deadline = deadline;
      raised = pos 0;
      donor_count = 0;
      donation_count = 0;
      is_open = true;
      created_at = now;
    })
    modify (λ s. record s { campaign_count = some id })
    extend_instance
    publish (campaign_created id creator beneficiary token goal deadline event_schema_version)
    pure id

  -- `caller != c.creator && caller != Self::admin(&env)?`: the admin is read only if need be
  abbrev pub check_closer : Address → Campaign → Contract (State W) DonationError (Unit {0})
  check_closer caller c =
      if caller == c.creator
      then pure tt
      else do admin ← read_admin; fail_if (not (caller == admin)) unauthorized

  unfoldable pub close_campaign : Address → ℕ → Contract (State W) DonationError (Unit {0})
  close_campaign caller id = do
    require_auth env caller
    c ← get_campaign id
    check_closer caller c
    fail_if (not c.is_open) campaign_closed
    put_campaign (record c { is_open = false })
    publish (campaign_ended id c.raised event_schema_version)

module _ {W : Type 0} (tokens : Tokens W) (env : Env) where
  -- `TokenClient::new(&env, &token).transfer(&from, &to, &amount)`
  abbrev pub token_transfer :
      Address → Address → Address → ℤ → Contract (State W) DonationError (Unit {0})
  token_transfer token from to amount s =
      elim (tokens.transfer s.world env.contract token from to amount) [
        | none ↦ (trap, s)
        | some w ↦ (ok tt, record s { world = w })
      ]

  -- The checks of `donate`, up to the transfer.
  unfoldable pub admit : Address → ℕ → ℤ → String → Contract (State W) DonationError Campaign
  admit donor campaign_id amount memo = do
    ensure_live
    require_auth env donor
    fail_if (leb_ℤ amount (pos 0)) invalid_amount
    fail_if (ltb max_text_len (len memo)) text_too_long
    c ← get_campaign campaign_id
    fail_if (not c.is_open) campaign_closed
    fail_if (ltb c.deadline env.timestamp) campaign_expired
    fail_if (donor == c.beneficiary) self_donation
    pure c

  -- The totals of the donor and of the campaign. The `+` on `i128` and `u32` trap on overflow.
  unfoldable pub count_in : Campaign → Address → ℕ → ℤ → Contract (State W) DonationError Campaign
  unfolding checked_add
  count_in c donor campaign_id amount = do
    prev ← gets (λ s. unwrap_or (s.donor_totals (campaign_id, donor)) (pos 0))
    donor_count ← or_trap (if prev ==ℤ pos 0 then add_u32 c.donor_count 1 else some c.donor_count)
    total ← or_trap (checked_add prev amount)
    modify (λ s. record s { donor_totals = put (campaign_id, donor) total s.donor_totals })
    extend_entry (donor_total_key campaign_id donor)
    raised ← ok_or (checked_add c.raised amount) invalid_amount
    donation_count ← or_trap (add_u32 c.donation_count 1)
    let updated = record c {
      donor_count = donor_count;
      raised = raised;
      donation_count = donation_count;
    }
    put_campaign updated
    pure updated

  -- The receipt and the event.
  unfoldable pub issue_receipt :
      Campaign → Address → ℕ → ℤ → String → Contract (State W) DonationError ℕ
  issue_receipt c donor campaign_id amount memo = do
    receipt_id ← or_trap (add_u64 (← receipt_count) 1)
    let receipt : Receipt = record {
      id = receipt_id;
      campaign_id = campaign_id;
      donor = donor;
      amount = amount;
      memo = memo;
      timestamp = env.timestamp;
      ledger = env.sequence;
    }
    modify (λ s. record s { receipts = put receipt_id receipt s.receipts })
    extend_entry (receipt_key receipt_id)
    modify (λ s. record s { receipt_count = some receipt_id })
    publish (donation_made campaign_id donor receipt_id amount c.raised event_schema_version)
    pure receipt_id

  unfoldable pub donate : Address → ℕ → ℤ → String → Contract (State W) DonationError ℕ
  unfolding admit count_in issue_receipt
  donate donor campaign_id amount memo = do
    c ← admit donor campaign_id amount memo
    token_transfer c.token donor c.beneficiary amount
    updated ← count_in c donor campaign_id amount
    issue_receipt updated donor campaign_id amount memo
