-- ===== src/Interfaces/Errors.antt =====
-- interfaces/src/lib.rs, the error enums with their stable discriminants.
use stellariq_contract.Prelude.{ℕ}

pub data RouterError : Type 0 where
  already_initialized not_initialized not_authorized paused expired zero_amount invalid_min_out
        empty_path too_many_hops discontinuous_path protocol_not_found insufficient_output
        swap_failed invalid_admin overflow insufficient_balance :
      RouterError

-- `RouterError as u32`
unfoldable pub router_code : RouterError → ℕ
router_code already_initialized = 1
router_code not_initialized = 2
router_code not_authorized = 3
router_code paused = 4
router_code expired = 5
router_code zero_amount = 6
router_code invalid_min_out = 7
router_code empty_path = 8
router_code too_many_hops = 9
router_code discontinuous_path = 10
router_code protocol_not_found = 11
router_code insufficient_output = 12
router_code swap_failed = 13
router_code invalid_admin = 14
router_code overflow = 15
router_code insufficient_balance = 16

pub data AdapterError : Type 0 where
  not_initialized not_authorized invalid_rate failed already_initialized : AdapterError

-- `AdapterError as u32`
unfoldable pub adapter_code : AdapterError → ℕ
adapter_code AdapterError.not_initialized = 1
adapter_code AdapterError.not_authorized = 2
adapter_code invalid_rate = 3
adapter_code failed = 4
adapter_code AdapterError.already_initialized = 5
