-- ===== src/Interfaces/Suite.antt =====
-- The unit tests of interfaces/src/lib.rs, as statements, and that they hold.
use stellariq_contract.Prelude.{
  ◌≡◌, ◌≤◌, ◌-◌, ◌/◌, ◌+◌, ◌^◌, refl, none, some, ℤ, pos, negsuc, ◌*ℤ◌, ◌-ℤ◌, checked_mul,
  checked_div, arith,
}
use stellariq_contract.Interfaces.Errors.{
  RouterError, router_code, AdapterError, adapter_code, expired, zero_amount, invalid_min_out,
  empty_path, too_many_hops, discontinuous_path, protocol_not_found, insufficient_output,
  swap_failed, invalid_admin, overflow, insufficient_balance, invalid_rate, failed,
}
use stellariq_contract.Interfaces.Types.{max_hops, bps_denom, event_schema_version}
use stellariq_contract.Interfaces.Math.{checked_mul_div, min_out_with_slippage}

-- `i128::MAX`
abbrev max_i128 : ℤ
max_i128 = pos (2 ^ 127 - 1)

abbrev MulDivExact : Type 0
MulDivExact =
    (checked_mul_div (pos 1000) (pos 3) (pos 2) ≡ some (pos 1500))
    × (checked_mul_div (pos 0) (pos 5) (pos 7) ≡ some (pos 0))

abbrev MulDivTruncatesTowardZero : Type 0
MulDivTruncatesTowardZero = checked_mul_div (pos 10) (pos 1) (pos 3) ≡ some (pos 3)

abbrev MulDivRejectsBadInputs : Type 0
MulDivRejectsBadInputs =
    (checked_mul_div (pos 10) (pos 1) (pos 0) ≡ none)
    × (checked_mul_div (pos 10) (pos 1) (negsuc 2) ≡ none)
    × (checked_mul_div (negsuc 9) (pos 1) (pos 3) ≡ none)
    × (checked_mul_div (pos 10) (negsuc 0) (pos 3) ≡ none)

abbrev MulDivRejectsOverflow : Type 0
MulDivRejectsOverflow =
    (checked_mul_div max_i128 (pos 2) (pos 1) ≡ none)
    × (checked_mul_div (pos ((2 ^ 127 - 1) / 2 + 1)) (pos 2) (pos 2) ≡ none)

abbrev SlippageHelperBounds : Type 0
SlippageHelperBounds =
    (min_out_with_slippage (pos 10000) (pos 0) ≡ some (pos 10000))
    × (min_out_with_slippage (pos 10000) (pos 100) ≡ some (pos 9900))
    × (min_out_with_slippage (pos 10000) (pos 10000) ≡ some (pos 0))
    × (min_out_with_slippage (pos 10000) (pos 10001) ≡ none)
    × (min_out_with_slippage (pos 10000) (negsuc 0) ≡ none)
    × (min_out_with_slippage (negsuc 4) (pos 100) ≡ none)

abbrev ErrorDiscriminantsAreStable : Type 0
ErrorDiscriminantsAreStable =
    (router_code RouterError.already_initialized ≡ 1)
    × (router_code RouterError.not_initialized ≡ 2)
    × (router_code RouterError.not_authorized ≡ 3)
    × (router_code RouterError.paused ≡ 4)
    × (router_code expired ≡ 5)
    × (router_code zero_amount ≡ 6)
    × (router_code invalid_min_out ≡ 7)
    × (router_code empty_path ≡ 8)
    × (router_code too_many_hops ≡ 9)
    × (router_code discontinuous_path ≡ 10)
    × (router_code protocol_not_found ≡ 11)
    × (router_code insufficient_output ≡ 12)
    × (router_code swap_failed ≡ 13)
    × (router_code invalid_admin ≡ 14)
    × (router_code overflow ≡ 15)
    × (router_code insufficient_balance ≡ 16)

abbrev AdapterErrorDiscriminantsAreStable : Type 0
AdapterErrorDiscriminantsAreStable =
    (adapter_code AdapterError.not_initialized ≡ 1)
    × (adapter_code AdapterError.not_authorized ≡ 2)
    × (adapter_code invalid_rate ≡ 3)
    × (adapter_code failed ≡ 4)
    × (adapter_code AdapterError.already_initialized ≡ 5)

abbrev BoundsAreSane : Type 0
BoundsAreSane =
    (1 ≤ max_hops) × (max_hops ≤ 10) × (bps_denom ≡ pos 10000) × (event_schema_version ≡ 1)

arithmetic_tests_pass :
    MulDivExact × MulDivTruncatesTowardZero × MulDivRejectsBadInputs × MulDivRejectsOverflow
    × SlippageHelperBounds
unfolding checked_mul_div min_out_with_slippage checked_mul checked_div ◌*ℤ◌ ◌-ℤ◌
arithmetic_tests_pass = (
  (refl, refl),
  refl,
  (refl, refl, refl, refl),
  (refl, refl),
  (refl, refl, refl, refl, refl, refl),
)

stability_tests_pass :
    ErrorDiscriminantsAreStable × AdapterErrorDiscriminantsAreStable × BoundsAreSane
unfolding router_code adapter_code
stability_tests_pass = (
  (refl, refl, refl, refl, refl, refl, refl, refl, refl, refl, refl, refl, refl, refl, refl, refl),
  (refl, refl, refl, refl, refl),
  (omega arith, omega arith, refl, refl),
)
