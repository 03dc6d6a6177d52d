-- ===== src/Donations/Codes.antt =====
-- The numeric codes of `DonationError` (contracts/donations/src/lib.rs).
use stellariq_contract.Prelude.{◌≡◌, some, List, [], ◌∷◌, arith}
use stellariq_contract.Interfaces.Codes.{error_of}
use stellariq_contract.Donations.Types.{
  DonationError, already_initialized, not_initialized, unauthorized, paused, invalid_amount,
  invalid_goal, invalid_deadline, campaign_not_found, campaign_closed, campaign_expired,
  text_too_long, receipt_not_found, self_donation, donation_code,
}

abbrev donation_errors : List DonationError
donation_errors =
    already_initialized ∷ not_initialized ∷ unauthorized ∷ paused ∷ invalid_amount ∷ invalid_goal
    ∷ invalid_deadline ∷ campaign_not_found ∷ campaign_closed ∷ campaign_expired ∷ text_too_long
    ∷ receipt_not_found ∷ self_donation ∷ []

-- The codes number the errors from 1 to 13: each error is read back from its code.
error_of-donation_code : (e : DonationError) → error_of donation_errors (donation_code e) ≡ some e
unfolding donation_code
error_of-donation_code e = ground arith
