-- ===== src/Scenario/GivingWitness.antt =====
-- A donor on the network of `Scenario.Network` who converts and gives (contracts/router/src/lib.rs,
-- contracts/donations/src/lib.rs).
use stellariq_contract.Prelude.{
  ◌≡◌, refl, true, false, some, [], pos, ◌==◌, ◌+ℤ◌, ◌-ℤ◌, ◌*ℤ◌, checked_sub, checked_add, empty,
  put, nat_eq, string_eq, arith,
}
use stellariq_contract.Soroban.{Address, Env, ok}
use stellariq_contract.Soroban.Sep41.{when}
use stellariq_contract.Interfaces.{checked_mul_div}
use stellariq_contract.TestAdapter
use stellariq_contract.Router
use stellariq_contract.Router.Custody.{IsApart}
use stellariq_contract.Donations
use stellariq_contract.Composition.{call_adapter}
use stellariq_contract.Composition.Giving.{swap_then_donate}
use stellariq_contract.Scenario.Network.{
  Others, admin, trader, router_id, give_id, token_a, token_c, tokens, adapters, env, router_with,
}
use stellariq_contract.Scenario.TwoHops.{funded, two_hops}
use stellariq_contract.Scenario.Facts.{
  funds, tokens-IsLedger, adapters-IsConfined, router-IsApart, trader-IsApart, after, two_hops_run,
}

abbrev charity : Address
charity = 31

abbrev give_env : Env
give_env = record env { contract = give_id }

abbrev campaign : Donations.Campaign
campaign = record {
  id = 1;
  creator = charity;
  beneficiary = charity;
  token = token_c;
  title = "Wells";
  description = "";
  goal = pos 5000;
  deadline = 5000;
  raised = pos 0;
  donor_count = 0;
  donation_count = 0;
  is_open = true;
  created_at = 1000;
}

abbrev before_gift : Donations.State Others
before_gift = record {
  admin = some admin;
  paused = some false;
  campaign_count = some 1;
  receipt_count = some 0;
  campaigns = put 1 campaign empty;
  receipts = empty;
  donor_totals = empty;
  events = [];
  extensions = [];
  world = after.world;
}

abbrev after_gift : Donations.State Others
after_gift = (Donations.donate tokens give_env trader 1 (pos 1500) "" before_gift).1

gift_run : Donations.donate tokens give_env trader 1 (pos 1500) "" before_gift ≡ (ok 1, after_gift)
unfolding Donations.donate Donations.admit Donations.count_in Donations.issue_receipt ◌+ℤ◌ ◌-ℤ◌
    checked_add call_adapter ◌*ℤ◌ checked_sub Router.next_nonce Router.swap Router.check_terms
    Router.check_route Router.settlement Router.validate_path Router.validate_from
    Router.check_protocols_from Router.token_transfer Router.execute_from Router.execute_hop
    Router.deliver Router.adapter_swap checked_mul_div TestAdapter.swap
gift_run = refl

charity-IsApart : IsApart charity (router_with funded)
charity-IsApart p a e = ground arith

swap_then_donate_example :
    (funds after_gift.world token_c trader
      ≡ funds funded token_c trader -ℤ when (token_c == token_a) (pos 1000))
    × (funds after_gift.world token_c charity
        ≡ funds funded token_c charity +ℤ when (token_c == token_c) (pos 1500))
    × (funds after_gift.world token_c router_id ≡ funds funded token_c router_id)
swap_then_donate_example =
    swap_then_donate tokens adapters funds tokens-IsLedger env give_env trader adapters-IsConfined
      token_a (pos 1000) (pos 1400) 1000000 two_hops (router_with funded) after (pos 1500) campaign
      1 1 "" before_gift after_gift two_hops_run refl refl gift_run (ground arith) (ground arith)
      trader-IsApart charity-IsApart router-IsApart token_c
