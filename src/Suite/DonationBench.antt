-- ===== src/Suite/DonationBench.antt =====
-- What the tests of contracts/donations/src/test.rs share: a contract with one token, over plain
-- ledgers, and calls of it in a row.
use stellariq_contract.Prelude.{ℕ, true, false, Option, some, String, ℤ, pos, nat_eq, pair_eq}
use stellariq_contract.Soroban.{Address, Env, Contract, Outcome, invoke, client}
use stellariq_contract.Donations
use stellariq_contract.Donations.{
  DonationError, invalid_amount, invalid_goal, invalid_deadline, campaign_not_found,
  campaign_closed, campaign_expired, text_too_long, self_donation, unauthorized, paused,
}
use stellariq_contract.Donations.Entries.{blank}
use stellariq_contract.Scenario.{
  Ledger, plain_tokens, plain_mint, no_funds, admin, trader, token_a, give_id,
}
use stellariq_contract.Suite.Bench.{◌▹◌}

-- `env` is the context of the calls of the contract. Everybody signs.
pub record Fixture : Type 0 where
  pub env : Env
  pub admin : Address
  pub charity : Address
  pub donor : Address
  pub token : Address

abbrev pub f : Fixture
f = record {
  env = record {
    contract = give_id;
    timestamp = 1000;
    sequence = 0;
    signed = λ a. true;
    uploaded = λ h. false;
  };
  admin = admin;
  charity = 31;
  donor = trader;
  token = token_a;
}

abbrev pub Storage : Type 0
Storage = Donations.State Ledger

module _ {A : Type 0} where
  -- A call of `f.client`, and the storage that it leaves.
  abbrev pub call : (Env → Contract Storage DonationError A) → Storage → Option Storage
  call entry s = client (entry f.env) s ▹ λ r. some r.1

  -- What such a call returns.
  abbrev pub ask : (Env → Contract Storage DonationError A) → Storage → Option A
  ask entry s = client (entry f.env) s ▹ λ r. some r.0

  -- `f.client.try_..` at a time of the ledger
  abbrev pub attempt_at :
      ℕ → (Env → Contract Storage DonationError A) → Storage → Option (Outcome DonationError A)
  attempt_at now entry s = some (invoke (entry (record f.env { timestamp = now })) s).0

  abbrev pub attempt :
      (Env → Contract Storage DonationError A) → Storage → Option (Outcome DonationError A)
  attempt entry s = attempt_at f.env.timestamp entry s

-- `env.register(Donations, (admin.clone(),))` after the donor has got a million.
unfoldable pub setup : Option Storage
unfolding Donations.constructor
setup = plain_mint no_funds f.token f.donor (pos 1000000) ▹ λ purse.
    call (λ env. Donations.constructor f.admin) (blank purse)

abbrev pub open_campaign : Env → Contract Storage DonationError ℕ
open_campaign env =
    Donations.create_campaign env f.admin f.charity f.token "Clean water for Kano"
      "Boreholes for three rural schools" (pos 500000) 10000

abbrev pub donate : Address → ℕ → ℕ → String → Env → Contract Storage DonationError ℕ
donate donor id amount memo env = Donations.donate plain_tokens env donor id (pos amount) memo

abbrev pub opened : Option Storage
opened = setup ▹ call open_campaign

-- `TokenClient::new(&f.env, &f.token).balance(holder)`
abbrev pub holds : Address → Storage → Option ℤ
holds holder s = plain_tokens.balance s.world f.token holder

-- A field of the campaign, or of the receipt, with this id.
module _ {A : Type 0} where
  abbrev pub in_campaign : ℕ → (Donations.Campaign → A) → Storage → Option A
  in_campaign id field s = ask (λ env. Donations.get_campaign id) s ▹ λ c. some (field c)

  abbrev pub in_receipt : ℕ → (Donations.Receipt → A) → Storage → Option A
  in_receipt id field s = ask (λ env. Donations.get_receipt id) s ▹ λ r. some (field r)
