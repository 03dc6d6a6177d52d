-- ===== src/TestAdapter/Defs.antt =====
-- contracts/test-adapter/src/lib.rs, entry point by entry point.
use stellariq_contract.Prelude.{
  false, not, ◌||◌, Bool, Option, none, some, ◌==◌, Map, put, delete, nat_eq, ℤ, pos, ltb_ℤ, leb_ℤ,
}
use stellariq_contract.Soroban.{
  Address, Env, Tokens, Contract, ok, trap, fail_if, gets, ok_or, or_trap, modify, unwrap_or, has,
  require_auth, ◌>>=◌, ◌>>◌,
}
use stellariq_contract.Interfaces.{AdapterError, invalid_rate, failed, AdapterCall, checked_mul_div}

-- An entry for each `AdapterKey`, all in instance storage, and the state of the token contracts.
pub record State (W : Type 0) : Type 0 where
  pub admin : Option Address
  pub rate : Map Address (ℤ × ℤ)
  pub fail : Map Address Bool
  pub misreport : Map Address ℤ
  pub world : W

module _ {W : Type 0} where
  unfoldable pub initialize : Address → Contract (State W) AdapterError (Unit {0})
  initialize admin = do
    fail_if (has (← gets (λ s. s.admin))) AdapterError.already_initialized
    modify (λ s. record s { admin = some admin })

  abbrev pub initialized : Contract (State W) AdapterError (Unit {0})
  initialized = do fail_if (not (has (← gets (λ s. s.admin)))) AdapterError.not_initialized

  abbrev pub require_admin : Env → Address → Contract (State W) AdapterError (Unit {0})
  require_admin env admin = do
    stored ← ok_or (← gets (λ s. s.admin)) AdapterError.not_initialized
    fail_if (not (admin == stored)) AdapterError.not_authorized
    require_auth env admin

module _ {W : Type 0} (env : Env) where
  unfoldable pub set_rate : Address → Address → ℤ → ℤ → Contract (State W) AdapterError (Unit {0})
  set_rate admin pool num denom = do
    require_admin env admin
    fail_if (ltb_ℤ num (pos 0) || leb_ℤ denom (pos 0)) invalid_rate
    modify (λ s. record s { rate = put pool (num, denom) s.rate })

  unfoldable pub set_fail : Address → Address → Bool → Contract (State W) AdapterError (Unit {0})
  set_fail admin pool flag = do
    require_admin env admin
    modify (λ s. record s { fail = put pool flag s.fail })

  unfoldable pub set_misreport : Address → Address → ℤ → Contract (State W) AdapterError (Unit {0})
  set_misreport admin pool reported = do
    require_admin env admin
    modify (λ s. record s { misreport = put pool reported s.misreport })

  unfoldable pub clear_misreport : Address → Address → Contract (State W) AdapterError (Unit {0})
  clear_misreport admin pool = do
    require_admin env admin
    modify (λ s. record s { misreport = delete pool s.misreport })

module _ {W : Type 0} (tokens : Tokens W) (env : Env) where
  -- `TokenClient::new(&env, &token).balance(&holder)`
  abbrev pub token_balance : Address → Address → Contract (State W) AdapterError ℤ
  token_balance token holder s = or_trap (tokens.balance s.world token holder) s

  -- `TokenClient::new(&env, &token).transfer(&from, &to, &amount)`
  abbrev pub token_transfer :
      Address → Address → Address → ℤ → Contract (State W) AdapterError (Unit {0})
  token_transfer token from to amount s =
      elim (tokens.transfer s.world env.contract token from to amount) [
        | none ↦ (trap, s)
        | some w ↦ (ok tt, record s { world = w })
      ]

  -- The minimum in the call is left to the router.
  unfoldable pub swap : AdapterCall → Contract (State W) AdapterError ℤ
  swap call = do
    initialized
    fail_if (leb_ℤ call.amount_in (pos 0)) failed
    fail_if (unwrap_or (← gets (λ s. s.fail call.pool)) false) failed
    fail_if (ltb_ℤ (← token_balance call.token_in env.contract) call.amount_in) failed
    (num, denom) ← gets (λ s. unwrap_or (s.rate call.pool) (pos 1, pos 1))
    out ← ok_or (checked_mul_div call.amount_in num denom) failed
    token_transfer call.token_out env.contract call.recipient out
    gets (λ s. unwrap_or (s.misreport call.pool) out)
