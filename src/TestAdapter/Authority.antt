-- ===== src/TestAdapter/Authority.antt =====
-- Who may set the test adapter's rates, failures and misreports (contracts/test-adapter/src/lib.rs).
use stellariq_contract.Prelude.{◌≡◌, false, some, Bool, ℤ, arith}
use stellariq_contract.Soroban.{Address, Env, Tokens, Contract, pure, invoke, ◌>>◌}
use stellariq_contract.Interfaces.{AdapterError, AdapterCall}
use stellariq_contract.TestAdapter.Defs.{
  State, initialize, set_rate, set_fail, set_misreport, clear_misreport, swap,
}

-- An entry point that sets something, with its arguments. All but the first name the caller.
pub data Setting : Type 0 where
  initialize_entry : (admin : Address) → Setting
  rate_entry : (admin pool : Address) (num denom : ℤ) → Setting
  fail_entry : (admin pool : Address) (flag : Bool) → Setting
  misreport_entry : (admin pool : Address) (reported : ℤ) → Setting
  clear_entry : (admin pool : Address) → Setting

module _ {W : Type 0} (env : Env) where
  unfoldable pub apply : Setting → Contract (State W) AdapterError (Unit {0})
  apply (initialize_entry admin) = initialize admin
  apply (rate_entry admin pool num denom) = set_rate env admin pool num denom
  apply (fail_entry admin pool flag) = set_fail env admin pool flag
  apply (misreport_entry admin pool reported) = set_misreport env admin pool reported
  apply (clear_entry admin pool) = clear_misreport env admin pool

  settings_need_admin :
      (e : Setting) (s : State W) (admin : Address)
      → s.admin ≡ some admin
      → env.signed admin ≡ false
      → (invoke (apply e) s).1 ≡ s
  unfolding apply initialize set_rate set_fail set_misreport clear_misreport
  settings_need_admin (initialize_entry a) s admin e n = ground arith
  settings_need_admin (rate_entry a pool num denom) s admin e n = ground arith
  settings_need_admin (fail_entry a pool flag) s admin e n = ground arith
  settings_need_admin (misreport_entry a pool reported) s admin e n = ground arith
  settings_need_admin (clear_entry a pool) s admin e n = ground arith

-- Any entry point, with its arguments.
pub data Entry : Type 0 where
  setting : Setting → Entry
  swap_entry : AdapterCall → Entry

module _ {W : Type 0} (tokens : Tokens W) (env : Env) where
  unfoldable pub call : Entry → Contract (State W) AdapterError (Unit {0})
  call (setting e) = apply env e
  call (swap_entry c) = swap tokens env c >> pure tt

  -- A trade may move tokens, a setting may not.
  abbrev pub Leaves : Entry → State W → State W → Type 0
  Leaves (setting _) s t = t ≡ s
  Leaves (swap_entry _) s t = t ≡ record s { world = t.world }

  swap-Leaves :
      (c : AdapterCall) (s : State W)
      → Leaves (swap_entry c) s (invoke (swap tokens env c >> pure tt) s).1
  unfolding swap
  swap-Leaves c s = ground arith

  -- Once the adapter has an admin, no entry point, `swap` included, changes its admin, rates, failures or
  -- misreports without that admin's signature, whoever the call names; and none but `swap` changes
  -- anything else.
  pub apply_needs_admin :
      (e : Entry) (s : State W) (admin : Address)
      → s.admin ≡ some admin
      → env.signed admin ≡ false
      → Leaves e s (invoke (call e) s).1
  unfolding call
  apply_needs_admin (setting e) s admin set n = settings_need_admin env e s admin set n
  apply_needs_admin (swap_entry c) s admin set n = swap-Leaves c s
