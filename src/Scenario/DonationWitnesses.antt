-- ===== src/Scenario/DonationWitnesses.antt =====
-- The theorems on contracts/donations/src/lib.rs, applied to a campaign with one donation.
use stellariq_contract.Prelude.{
  ◌≢◌, ◌&&◌, ◌==◌, ◌≡◌, ◌↔◌, refl, true, false, some, [], pos, ◌+ℤ◌, ◌-ℤ◌, put, nat_eq, pair_eq,
  checked_add, empty,
}
use stellariq_contract.Soroban.{Address, ok, err}
use stellariq_contract.Soroban.Sep41.{when}
use stellariq_contract.Donations
use stellariq_contract.Donations.Funds.{donate_moves}
use stellariq_contract.Scenario.Facts.{held, plain_tokens-IsLedger}
use stellariq_contract.Donations.Results.{donate_refuses}
use stellariq_contract.Donations.Admission.{IsRefused}
use stellariq_contract.Donations.Campaigns.{
  create_campaign-CreateEnds, CreateEnds, close_campaign-CloseEnds, CloseEnds,
}
use stellariq_contract.Donations.Entries.{
  create_entry, donate_entry, perform, Reach, deployed, invoked, blank,
}
use stellariq_contract.Donations.Permanence.{IsKeptBy, perform_keeps}
use stellariq_contract.Donations.Exactness.{Succeeds, donate_exactly}
use stellariq_contract.Donations.Sizes.{IsSized, Reach-IsSized}
use stellariq_contract.Donations.Replay.{Shown, Reach-Shown}
use stellariq_contract.Scenario.Network.{
  Ledger, admin, trader, router_id, token_a, plain_tokens, credit, no_funds, env,
}

-- The donor, who signs for all calls, has funds of the token.
abbrev donor : Address
donor = router_id

abbrev charity : Address
charity = 31

abbrev purse : Ledger
purse = credit token_a donor 500 no_funds

abbrev opened : Donations.State Ledger
opened =
    perform plain_tokens env (create_entry trader charity token_a "Wells" "" (pos 1000) 5000)
      (Donations.constructor admin (blank purse)).1

opened_reached : Reach plain_tokens admin opened
opened_reached =
    invoked env (create_entry trader charity token_a "Wells" "" (pos 1000) 5000) (deployed purse)

abbrev campaign : Donations.Campaign
campaign = record {
  id = 1;
  creator = trader;
  beneficiary = charity;
  token = token_a;
  title = "Wells";
  description = "";
  goal = pos 1000;
  deadline = 5000;
  raised = pos 0;
  donor_count = 0;
  donation_count = 0;
  is_open = true;
  created_at = 1000;
}

abbrev with_campaign : Donations.State Ledger
with_campaign = record {
  admin = some admin;
  paused = some false;
  campaign_count = some 1;
  receipt_count = some 0;
  campaigns = put 1 campaign empty;
  receipts = empty;
  donor_totals = empty;
  events = [];
  extensions = [];
  world = purse;
}

abbrev after_donation : Donations.State Ledger
after_donation = (Donations.donate plain_tokens env donor 1 (pos 200) "" with_campaign).1

donate_run :
    Donations.donate plain_tokens env donor 1 (pos 200) "" with_campaign ≡ (ok 1, after_donation)
unfolding Donations.donate Donations.admit Donations.count_in Donations.issue_receipt ◌+ℤ◌ ◌-ℤ◌
    checked_add
donate_run = refl

abbrev after_nothing : Donations.State Ledger
after_nothing = (Donations.donate plain_tokens env donor 1 (pos 0) "" with_campaign).1

nothing_run :
    Donations.donate plain_tokens env donor 1 (pos 0) "" with_campaign
    ≡ (err Donations.invalid_amount, after_nothing)
unfolding Donations.donate Donations.admit
nothing_run = refl

donate_refuses_example :
    IsRefused plain_tokens env donor 1 (pos 0) "" with_campaign Donations.invalid_amount
donate_refuses_example =
    donate_refuses plain_tokens env donor 1 (pos 0) "" with_campaign Donations.invalid_amount
      after_nothing nothing_run

create_campaign-CreateEnds_example :
    CreateEnds env trader charity token_a "Wells" "" (pos 1000) 5000 with_campaign (
      Donations.create_campaign env trader charity token_a "Wells" "" (pos 1000) 5000 with_campaign)
create_campaign-CreateEnds_example =
    create_campaign-CreateEnds env trader charity token_a "Wells" "" (pos 1000) 5000 with_campaign

close_campaign-CloseEnds_example :
    CloseEnds env trader 1 with_campaign (Donations.close_campaign env trader 1 with_campaign)
close_campaign-CloseEnds_example = close_campaign-CloseEnds env trader 1 with_campaign

perform_keeps_example :
    IsKeptBy env opened (perform plain_tokens env (donate_entry donor 1 (pos 200) "") opened)
perform_keeps_example =
    perform_keeps plain_tokens admin env (donate_entry donor 1 (pos 200) "") opened opened_reached

donate_moves_example :
    (c : Donations.Campaign) × (with_campaign.campaigns 1 ≡ some c)
    × (donor ≢ c.beneficiary)
    × ((u h : Address)
        → held after_donation.world u h
          ≡ held with_campaign.world u h
            +ℤ when (u == c.token && h == c.beneficiary) (pos 200)
            -ℤ when (u == c.token && h == donor) (pos 200))
donate_moves_example =
    donate_moves plain_tokens env held plain_tokens-IsLedger donor 1 (pos 200) "" with_campaign 1
      after_donation donate_run

Reach-Shown_example : Shown opened
Reach-Shown_example = Reach-Shown plain_tokens admin opened opened_reached

donate_exactly_example :
    (Donations.donate plain_tokens env donor 1 (pos 200) "" with_campaign ≡ (ok 1, after_donation))
    ↔ Succeeds plain_tokens env donor 1 (pos 200) "" with_campaign 1 after_donation
donate_exactly_example =
    donate_exactly plain_tokens env donor 1 (pos 200) "" with_campaign 1 after_donation

Reach-IsSized_example : IsSized opened
Reach-IsSized_example = Reach-IsSized plain_tokens admin opened opened_reached
