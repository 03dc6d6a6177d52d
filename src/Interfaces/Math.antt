-- ===== src/Interfaces/Math.antt =====
-- interfaces/src/lib.rs: `checked_mul_div` and `min_out_with_slippage`.
use stellariq_contract.Prelude.{
  ◌||◌, ◌&&◌, not, Option, none, some, if◌then◌else◌, ℤ, pos, ltb_ℤ, leb_ℤ, ◌-ℤ◌, checked_mul,
  checked_div,
}
use stellariq_contract.Interfaces.Types.{bps_denom}

-- `a?` on an option
abbrev pub and_then : {A B : Type 0} → Option A → (A → Option B) → Option B
and_then none f = none
and_then (some a) f = f a

unfoldable pub checked_mul_div : ℤ → ℤ → ℤ → Option ℤ
unfolding checked_mul checked_div
checked_mul_div amount num denom =
    if ltb_ℤ amount (pos 0) || ltb_ℤ num (pos 0) || leb_ℤ denom (pos 0)
    then none
    else and_then (checked_mul amount num) (λ product. checked_div product denom)

unfoldable pub min_out_with_slippage : ℤ → ℤ → Option ℤ
unfolding checked_mul_div
min_out_with_slippage amount slippage_bps =
    if not (leb_ℤ (pos 0) slippage_bps && leb_ℤ slippage_bps bps_denom)
    then none
    else checked_mul_div amount (bps_denom -ℤ slippage_bps) bps_denom
