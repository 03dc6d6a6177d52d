-- ===== src/Scenario/NonCustodial.antt =====
-- A campaign with two donations, and one campaign that is for the contract itself, on the ledgers of
-- `Scenario.Network` (contracts/donations/src/lib.rs).
use stellariq_contract.Prelude.{◌≡◌, refl, pos, ◌==◌, ◌+ℤ◌, checked_add, arith, nat_eq, pair_eq}
use stellariq_contract.Soroban.{Address, Env}
use stellariq_contract.Donations
use stellariq_contract.Donations.Entries.{Entry, create_entry, donate_entry, perform, blank}
use stellariq_contract.Donations.Lifetime.{Life, begun, invoked, outside, IsForOthers, never_holds}
use stellariq_contract.Scenario.Network.{
  Ledger, admin, trader, give_id, token_a, plain_tokens, credit, no_funds, env,
}
use stellariq_contract.Scenario.Facts.{held, plain_tokens-IsLedger}

abbrev charity : Address
charity = 31

-- The trader opens the campaign and gives.
abbrev give_env : Env
give_env = record env { contract = give_id; signed = λ a. a == trader }

abbrev purse : Ledger
purse = credit token_a trader 500 no_funds

abbrev start : Donations.State Ledger
start = (Donations.constructor admin (blank purse)).1

abbrev opening : Address → Entry
opening beneficiary = create_entry trader beneficiary token_a "Wells" "" (pos 1000) 5000

abbrev gift : Entry
gift = donate_entry trader 1 (pos 200) ""

abbrev once : Donations.State Ledger
once = perform plain_tokens give_env gift (perform plain_tokens give_env (opening charity) start)

-- The trader then gets more of the token from elsewhere.
abbrev richer : Ledger
richer = credit token_a trader 1000 once.world

abbrev twice : Donations.State Ledger
twice = perform plain_tokens give_env gift (record once { world = richer })

two_gifts : Life plain_tokens held give_id start twice
two_gifts = invoked give_env gift refl tt (
    outside richer (λ u. ground arith)
      (invoked give_env gift refl tt
        (invoked give_env (opening charity) refl (ground arith) begun)))

start-IsForOthers : IsForOthers give_id start
unfolding Donations.constructor
start-IsForOthers id c found = ground arith

never_holds_example : held start.world token_a give_id ≡ held twice.world token_a give_id
never_holds_example =
    never_holds plain_tokens held give_id plain_tokens-IsLedger start-IsForOthers two_gifts token_a

-- Nothing keeps a campaign from naming the contract as its beneficiary, and then it holds the gift.
campaign_for_itself :
    let before = perform plain_tokens give_env (opening give_id) start in
    let after = perform plain_tokens give_env gift before in
    (held before.world token_a give_id ≡ pos 0) × (held after.world token_a give_id ≡ pos 200)
unfolding perform Donations.constructor Donations.create_campaign Donations.donate Donations.admit
    Donations.count_in Donations.issue_receipt ◌+ℤ◌ checked_add
campaign_for_itself = (refl, refl)
