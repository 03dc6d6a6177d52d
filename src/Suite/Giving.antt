-- ===== src/Suite/Giving.antt =====
-- contracts/donations/src/test.rs. The id of the first campaign is 1, as the second test says.
use stellariq_contract.Prelude.{
  ℕ, ◌≡◌, refl, true, false, some, String, pos, ◌+ℤ◌, nat_eq, pair_eq, checked_add,
}
use stellariq_contract.Soroban.{Address, Env, Contract, err}
use stellariq_contract.Donations
use stellariq_contract.Donations.{
  DonationError, invalid_amount, invalid_goal, invalid_deadline, campaign_not_found,
  campaign_closed, campaign_expired, text_too_long, self_donation, unauthorized, paused,
}
use stellariq_contract.Suite.Bench.{◌▹◌}
use stellariq_contract.Suite.DonationBench.{
  f, Storage, call, ask, attempt_at, attempt, setup, open_campaign, donate, opened, holds,
  in_campaign, in_receipt,
}

abbrev ConstructorSetsAdmin : Type 0
ConstructorSetsAdmin =
    ((setup ▹ ask (λ env. Donations.admin_address)) ≡ some f.admin)
    × ((setup ▹ ask (λ env. Donations.is_paused)) ≡ some false)

abbrev CreateCampaignAssignsSequentialIds : Type 0
CreateCampaignAssignsSequentialIds =
    let both = opened ▹ call open_campaign in
    ((setup ▹ ask open_campaign) ≡ some 1)
    × ((opened ▹ ask open_campaign) ≡ some 2)
    × ((both ▹ ask (λ env. Donations.campaign_count)) ≡ some 2)
    × ((both ▹ in_campaign 1 (λ c. c.beneficiary)) ≡ some f.charity)
    × ((both ▹ in_campaign 1 (λ c. c.raised)) ≡ some (pos 0))
    × ((both ▹ in_campaign 1 (λ c. c.is_open)) ≡ some true)

abbrev CreateCampaignValidatesInput : Type 0
CreateCampaignValidatesInput =
    let create : String → ℕ → ℕ → Env → Contract Storage DonationError ℕ =
      λ title goal deadline env.
        Donations.create_campaign env f.admin f.charity f.token title "" (pos goal) deadline in
    ((setup ▹ attempt (create "Food bank" 0 10000)) ≡ some (err invalid_goal))
    × ((setup ▹ attempt (create "Food bank" 10 999)) ≡ some (err invalid_deadline))
    × ((setup ▹ attempt (create "" 10 10000)) ≡ some (err text_too_long))

abbrev DonateSendsFundsDirectlyToBeneficiary : Type 0
DonateSendsFundsDirectlyToBeneficiary =
    let gift = donate f.donor 1 25000 "in memory of grandma" in
    let given = opened ▹ call gift in
    ((opened ▹ ask gift) ≡ some 1)
    × ((given ▹ holds f.charity) ≡ some (pos 25000))
    × ((given ▹ holds f.donor) ≡ some (pos 975000))
    × ((given ▹ holds f.env.contract) ≡ some (pos 0))
    × ((given ▹ in_campaign 1 (λ c. c.raised)) ≡ some (pos 25000))
    × ((given ▹ in_campaign 1 (λ c. c.donor_count)) ≡ some 1)
    × ((given ▹ in_campaign 1 (λ c. c.donation_count)) ≡ some 1)
    × ((given ▹ in_receipt 1 (λ r. r.donor)) ≡ some f.donor)
    × ((given ▹ in_receipt 1 (λ r. r.amount)) ≡ some (pos 25000))
    × ((given ▹ in_receipt 1 (λ r. r.memo)) ≡ some "in memory of grandma")

abbrev RepeatDonorCountedOnce : Type 0
RepeatDonorCountedOnce =
    let given = opened ▹ call (donate f.donor 1 100 "") ▹ call (donate f.donor 1 200 "") in
    ((given ▹ in_campaign 1 (λ c. c.donor_count)) ≡ some 1)
    × ((given ▹ in_campaign 1 (λ c. c.donation_count)) ≡ some 2)
    × ((given ▹ ask (λ env. Donations.donor_total 1 f.donor)) ≡ some (pos 300))
    × ((given ▹ ask (λ env. Donations.receipt_count)) ≡ some 2)

abbrev DonateRejectsBadRequests : Type 0
DonateRejectsBadRequests =
    ((opened ▹ attempt (donate f.donor 1 0 "")) ≡ some (err invalid_amount))
    × ((opened ▹ attempt (donate f.donor 99 10 "")) ≡ some (err campaign_not_found))
    × ((opened ▹ attempt (donate f.charity 1 10 "")) ≡ some (err self_donation))

abbrev DonateAfterDeadlineFails : Type 0
DonateAfterDeadlineFails =
    (opened ▹ attempt_at 10001 (donate f.donor 1 10 "")) ≡ some (err campaign_expired)

abbrev ClosedCampaignRejectsDonations : Type 0
ClosedCampaignRejectsDonations =
    let ended = opened ▹ call (λ env. Donations.close_campaign env f.admin 1) in
    ((ended ▹ in_campaign 1 (λ c. c.is_open)) ≡ some false)
    × ((ended ▹ attempt (donate f.donor 1 10 "")) ≡ some (err campaign_closed))
    × ((ended ▹ attempt (λ env. Donations.close_campaign env f.admin 1))
        ≡ some (err campaign_closed))

abbrev stranger : Address
stranger = 32

abbrev StrangerCannotCloseCampaign : Type 0
StrangerCannotCloseCampaign =
    (opened ▹ attempt (λ env. Donations.close_campaign env stranger 1)) ≡ some (err unauthorized)

abbrev PauseBlocksDonations : Type 0
PauseBlocksDonations =
    let halted = opened ▹ call (λ env. Donations.set_paused env true) in
    ((halted ▹ ask (λ env. Donations.is_paused)) ≡ some true)
    × ((halted ▹ attempt (donate f.donor 1 10 "")) ≡ some (err paused))

campaign_tests_pass :
    ConstructorSetsAdmin × CreateCampaignAssignsSequentialIds × CreateCampaignValidatesInput
    × ClosedCampaignRejectsDonations × StrangerCannotCloseCampaign
unfolding setup Donations.admin_address Donations.create_campaign Donations.close_campaign
    Donations.donate Donations.admit Donations.count_in Donations.issue_receipt
campaign_tests_pass = (
  (refl, refl),
  (refl, refl, refl, refl, refl, refl),
  (refl, refl, refl),
  (refl, refl, refl),
  refl,
)

donation_tests_pass :
    DonateSendsFundsDirectlyToBeneficiary × RepeatDonorCountedOnce × DonateRejectsBadRequests
    × DonateAfterDeadlineFails × PauseBlocksDonations
unfolding setup Donations.create_campaign Donations.set_paused Donations.get_receipt
    Donations.donor_total Donations.donate Donations.admit Donations.count_in
    Donations.issue_receipt ◌+ℤ◌ checked_add
donation_tests_pass = (
  (refl, refl, refl, refl, refl, refl, refl, refl, refl, refl),
  (refl, refl, refl, refl),
  (refl, refl, refl),
  refl,
  (refl, refl),
)
