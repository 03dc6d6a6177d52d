-- ===== src/Donations/Observer.antt =====
-- What the events of the donations contract tell (contracts/donations/src/lib.rs, `CampaignCreated`,
-- `DonationMade` and `CampaignClosed`), as the state that an indexer keeps of them.
use stellariq_contract.Prelude.{
  ℕ, ◌+◌, ◌≡◌, refl, Bool, true, false, ◌&&◌, Option, none, some, List, [], ◌∷◌, ◌++◌, ◌==◌,
  if◌then◌else◌, ℤ, pos, ◌+ℤ◌, ◌==ℤ◌, nat_eq, pair_eq,
}
use stellariq_contract.Soroban.{Address, unwrap_or}
use stellariq_contract.Donations.Types.{
  Campaign, Receipt, Event, campaign_created, donation_made, campaign_ended, State,
}

-- What the events tell of a campaign: all but its texts and the time of its creation.
pub record Terms : Type 0 where
  pub creator : Address
  pub beneficiary : Address
  pub token : Address
  pub goal : ℤ
  pub deadline : ℕ
  pub raised : ℤ
  pub donor_count : ℕ
  pub donation_count : ℕ
  pub is_open : Bool

-- What they tell of a receipt: all but its memo, time and ledger.
pub record Gift : Type 0 where
  pub campaign_id : ℕ
  pub donor : Address
  pub amount : ℤ

pub record View : Type 0 where
  pub campaigns : ℕ → Option Terms
  pub gifts : ℕ → Option Gift
  pub totals : ℕ → Address → ℤ
  pub last_campaign : ℕ
  pub last_receipt : ℕ

abbrev pub nothing : View
nothing = record {
  campaigns = λ k. none;
  gifts = λ i. none;
  totals = λ k d. pos 0;
  last_campaign = 0;
  last_receipt = 0;
}

-- A campaign's terms after a gift that brings its sum to `raised`, from a donor new to it or not.
abbrev pub with_gift : Bool → ℤ → Option Terms → Option Terms
with_gift new raised none = none
with_gift new raised (some c) = some (record c {
  raised = raised;
  donor_count = if new then c.donor_count + 1 else c.donor_count;
  donation_count = c.donation_count + 1;
})

abbrev pub without_more : Option Terms → Option Terms
without_more none = none
without_more (some c) = some (record c { is_open = false })

-- How an event changes what is known.
abbrev pub observe : Event → View → View
observe (campaign_created id creator beneficiary token goal deadline _) v = record v {
  campaigns = λ j.
      if id == j
      then some (record {
        creator = creator;
        beneficiary = beneficiary;
        token = token;
        goal = goal;
        deadline = deadline;
        raised = pos 0;
        donor_count = 0;
        donation_count = 0;
        is_open = true;
      })
      else v.campaigns j;
  last_campaign = id;
}
observe (donation_made id donor receipt_id amount raised _) v = record v {
  campaigns = λ j.
      if id == j
      then with_gift (v.totals id donor ==ℤ pos 0) raised (v.campaigns j)
      else v.campaigns j;
  gifts = λ j.
      if receipt_id == j
      then some (record { campaign_id = id; donor = donor; amount = amount })
      else v.gifts j;
  totals = λ k d. if id == k && donor == d then v.totals id donor +ℤ amount else v.totals k d;
  last_receipt = receipt_id;
}
observe (campaign_ended id _ _) v = record v {
  campaigns = λ j. if id == j then without_more (v.campaigns j) else v.campaigns j;
}

unfoldable pub replay : List Event → View → View
replay [] v = v
replay (e ∷ es) v = replay es (observe e v)

abbrev pub terms_of : Option Campaign → Option Terms
terms_of none = none
terms_of (some c) = some (record {
  creator = c.creator;
  beneficiary = c.beneficiary;
  token = c.token;
  goal = c.goal;
  deadline = c.deadline;
  raised = c.raised;
  donor_count = c.donor_count;
  donation_count = c.donation_count;
  is_open = c.is_open;
})

abbrev pub gift_of : Option Receipt → Option Gift
gift_of none = none
gift_of (some r) = some (record { campaign_id = r.campaign_id; donor = r.donor; amount = r.amount })

-- A view shows a storage.
pub record Shows {W : Type 0} (v : View) (s : State W) : Type 0 where
  pub campaigns_shown : (k : ℕ) → v.campaigns k ≡ terms_of (s.campaigns k)
  pub gifts_shown : (i : ℕ) → v.gifts i ≡ gift_of (s.receipts i)
  pub totals_shown :
      (k : ℕ) (d : Address) → v.totals k d ≡ unwrap_or (s.donor_totals (k, d)) (pos 0)
  pub campaigns_counted : v.last_campaign ≡ unwrap_or s.campaign_count 0
  pub receipts_counted : v.last_receipt ≡ unwrap_or s.receipt_count 0

-- One more event.
pub replay-snoc :
    (es : List Event) (e : Event) (v : View) → replay (es ++ (e ∷ [])) v ≡ observe e (replay es v)
unfolding replay
replay-snoc [] e v = refl
replay-snoc (x ∷ es) e v = replay-snoc es e (observe x v)
