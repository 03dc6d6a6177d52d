-- ===== src/Interfaces/Codes.antt =====
-- The numeric codes that interfaces/src/lib.rs fixes for the errors: clients read an error back from
-- its code.
use stellariq_contract.Prelude.{
  ℕ, zero, suc, ◌≡◌, sym, ◌∙◌, ap, Option, none, some, List, [], ◌∷◌, get_elem?, arith,
}
use mathlib.Core.Option.{some-injective}
use stellariq_contract.Interfaces.Errors.{
  RouterError, expired, zero_amount, invalid_min_out, empty_path, too_many_hops, discontinuous_path,
  protocol_not_found, insufficient_output, swap_failed, invalid_admin, overflow,
  insufficient_balance, router_code, AdapterError, invalid_rate, failed, adapter_code,
}

-- What a client knows of the errors: their names, in the order of their codes, from 1 on.
abbrev pub error_of : {E : Type 0} → List E → ℕ → Option E
error_of errors zero = none
error_of errors (suc n) = get_elem? errors n

abbrev pub router_errors : List RouterError
router_errors =
    RouterError.already_initialized ∷ RouterError.not_initialized ∷ RouterError.not_authorized
    ∷ RouterError.paused ∷ expired ∷ zero_amount ∷ invalid_min_out ∷ empty_path ∷ too_many_hops
    ∷ discontinuous_path ∷ protocol_not_found ∷ insufficient_output ∷ swap_failed ∷ invalid_admin
    ∷ overflow ∷ insufficient_balance ∷ []

abbrev pub adapter_errors : List AdapterError
adapter_errors =
    AdapterError.not_initialized ∷ AdapterError.not_authorized ∷ invalid_rate ∷ failed
    ∷ AdapterError.already_initialized ∷ []

error_of-router_code : (e : RouterError) → error_of router_errors (router_code e) ≡ some e
unfolding router_code
error_of-router_code e = ground arith

error_of-adapter_code : (e : AdapterError) → error_of adapter_errors (adapter_code e) ≡ some e
unfolding adapter_code
error_of-adapter_code e = ground arith

-- The router's codes number its errors from 1 to 16, and the adapter's codes from 1 to 5, in the order of the
-- two lists: each error is read back from its code.
pub error_of-code :
    (e : RouterError) (a : AdapterError)
    → (error_of router_errors (router_code e) ≡ some e)
      × (error_of adapter_errors (adapter_code a) ≡ some a)
error_of-code e a = (error_of-router_code e, error_of-adapter_code a)

-- No two router errors share a code.
router_code_inj : (a b : RouterError) → router_code a ≡ router_code b → a ≡ b
router_code_inj a b h =
    some-injective a b
      (sym (error_of-router_code a) ∙ ap (error_of router_errors) h ∙ error_of-router_code b)

-- No two adapter errors share a code.
adapter_code_inj : (a b : AdapterError) → adapter_code a ≡ adapter_code b → a ≡ b
adapter_code_inj a b h =
    some-injective a b
      (sym (error_of-adapter_code a) ∙ ap (error_of adapter_errors) h ∙ error_of-adapter_code b)
