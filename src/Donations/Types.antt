-- ===== src/Donations/Types.antt =====
-- contracts/donations/src/lib.rs: errors, stored types, events, storage and its helpers.
use stellariq_contract.Prelude.{
  ℕ, ◌+◌, ◌^◌, Bool, false, Option, none, some, List, [], ◌∷◌, ◌++◌, String, ltb, if◌then◌else◌, ℤ,
  Map, put, nat_eq,
}
use stellariq_contract.Soroban.{
  Address, Contract, Extension, instance_ttl, entry_ttl, fail_if, gets, ok_or, modify, unwrap_or,
  ◌>>=◌, ◌>>◌,
}

-- `EVENT_SCHEMA_VERSION`
abbrev pub event_schema_version : ℕ
event_schema_version = 1

-- `MAX_TITLE_LEN`
abbrev pub max_title_len : ℕ
max_title_len = 80

-- `MAX_TEXT_LEN`
abbrev pub max_text_len : ℕ
max_text_len = 280

pub data DonationError : Type 0 where
  already_initialized not_initialized unauthorized paused invalid_amount invalid_goal
        invalid_deadline campaign_not_found campaign_closed campaign_expired text_too_long
        receipt_not_found self_donation :
      DonationError

unfoldable pub donation_code : DonationError → ℕ
donation_code already_initialized = 1
donation_code not_initialized = 2
donation_code unauthorized = 3
donation_code paused = 4
donation_code invalid_amount = 5
donation_code invalid_goal = 6
donation_code invalid_deadline = 7
donation_code campaign_not_found = 8
donation_code campaign_closed = 9
donation_code campaign_expired = 10
donation_code text_too_long = 11
donation_code receipt_not_found = 12
donation_code self_donation = 13

pub record Campaign : Type 0 where
  pub id : ℕ
  pub creator : Address
  pub beneficiary : Address
  pub token : Address
  pub title : String
  pub description : String
  pub goal : ℤ
  pub deadline : ℕ
  pub raised : ℤ
  pub donor_count : ℕ
  pub donation_count : ℕ
  pub is_open : Bool
  pub created_at : ℕ

pub record Receipt : Type 0 where
  pub id : ℕ
  pub campaign_id : ℕ
  pub donor : Address
  pub amount : ℤ
  pub memo : String
  pub timestamp : ℕ
  pub ledger : ℕ

-- `CampaignCreated`, `DonationMade` and `CampaignClosed`, with the fields in the source's order.
pub data Event : Type 0 where
  campaign_created :
      (campaign_id : ℕ) (creator beneficiary token : Address) (goal : ℤ) (deadline version : ℕ)
      → Event
  donation_made :
      (campaign_id : ℕ) (donor : Address) (receipt_id : ℕ) (amount raised : ℤ) (version : ℕ) → Event
  campaign_ended : (campaign_id : ℕ) (raised : ℤ) (version : ℕ) → Event

-- `enum DataKey`
pub data DataKey : Type 0 where
  admin_key paused_key campaign_count_key receipt_count_key : DataKey
  campaign_key : ℕ → DataKey
  receipt_key : ℕ → DataKey
  donor_total_key : ℕ → Address → DataKey

-- `TTL_THRESHOLD`
abbrev pub ttl_threshold : ℕ
ttl_threshold = 17280

-- `TTL_EXTEND`
abbrev pub ttl_extend : ℕ
ttl_extend = 518400

-- An entry for each `DataKey` (the first four in instance, the others in persistent storage), the
-- events and TTL extensions so far, oldest first, and the state of the token contracts.
pub record State (W : Type 0) : Type 0 where
  pub admin : Option Address
  pub paused : Option Bool
  pub campaign_count : Option ℕ
  pub receipt_count : Option ℕ
  pub campaigns : Map ℕ Campaign
  pub receipts : Map ℕ Receipt
  pub donor_totals : Map (ℕ × Address) ℤ
  pub events : List Event
  pub extensions : List (Extension DataKey)
  pub world : W

-- `+` on a `u32` and a `u64`, which traps on overflow.
abbrev pub add_u32 : ℕ → ℕ → Option ℕ
add_u32 a b = if ltb (a + b) (2 ^ 32) then some (a + b) else none

abbrev pub add_u64 : ℕ → ℕ → Option ℕ
add_u64 a b = if ltb (a + b) (2 ^ 64) then some (a + b) else none

module _ {W : Type 0} where
  abbrev pub publish : Event → Contract (State W) DonationError (Unit {0})
  publish e = modify (λ s. record s { events = s.events ++ (e ∷ []) })

  abbrev pub extend_instance : Contract (State W) DonationError (Unit {0})
  extend_instance =
      modify
        λ s. record s { extensions = s.extensions ++ (instance_ttl ttl_threshold ttl_extend ∷ []) }

  abbrev pub extend_entry : DataKey → Contract (State W) DonationError (Unit {0})
  extend_entry key =
      modify
        λ s. record s { extensions = s.extensions ++ (entry_ttl key ttl_threshold ttl_extend ∷ []) }

  -- `Self::admin`
  abbrev pub read_admin : Contract (State W) DonationError Address
  read_admin = do ok_or (← gets (λ s. s.admin)) not_initialized

  abbrev pub is_paused : Contract (State W) DonationError Bool
  is_paused = gets (λ s. unwrap_or s.paused false)

  abbrev pub ensure_live : Contract (State W) DonationError (Unit {0})
  ensure_live = do read_admin; fail_if (← is_paused) paused

  abbrev pub put_campaign : Campaign → Contract (State W) DonationError (Unit {0})
  put_campaign c = do
    modify (λ s. record s { campaigns = put c.id c s.campaigns })
    extend_entry (campaign_key c.id)

  abbrev pub campaign_count : Contract (State W) DonationError ℕ
  campaign_count = gets (λ s. unwrap_or s.campaign_count 0)

  abbrev pub receipt_count : Contract (State W) DonationError ℕ
  receipt_count = gets (λ s. unwrap_or s.receipt_count 0)

  abbrev pub get_campaign : ℕ → Contract (State W) DonationError Campaign
  get_campaign id = do
    c ← ok_or (← gets (λ s. s.campaigns id)) campaign_not_found
    extend_entry (campaign_key id)
    gets (λ _. c)
