-- ===== src/Router/Admin.antt =====
-- contracts/router/src/lib.rs: life cycle, protocol registry, upgrade, and the read-only views.
use stellariq_contract.Prelude.{
  String, Bool, false, not, some, ◌==◌, put, delete, string_eq, if◌then◌else◌,
}
use stellariq_contract.Soroban.{
  Address, Symbol, Hash, Env, Contract, pure, fail_if, gets, ok_or, modify, unwrap_or, has, abort,
  require_auth, ◌>>=◌, ◌>>◌,
}
use stellariq_contract.Interfaces.{
  RouterError, already_initialized, invalid_admin, protocol_not_found, event_schema_version,
  initialized, admin_changed, pause_changed, protocol_set, protocol_removed, upgraded,
}
use stellariq_contract.Router.Storage.{
  State, protocol_key, publish, extend_instance, extend_entry, read_admin,
}

module _ {W : Type 0} (env : Env) where
  unfoldable pub initialize : Address → Contract (State W) RouterError (Unit {0})
  initialize admin = do
    fail_if (has (← gets (λ s. s.admin))) already_initialized
    modify (λ s. record s { admin = some admin })
    modify (λ s. record s { paused = some false })
    modify (λ s. record s { nonce = some 0 })
    extend_instance
    publish (initialized admin event_schema_version)

  unfoldable pub set_admin : Address → Contract (State W) RouterError (Unit {0})
  set_admin new_admin = do
    old_admin ← read_admin
    require_auth env old_admin
    fail_if (new_admin == old_admin) invalid_admin
    modify (λ s. record s { admin = some new_admin })
    extend_instance
    publish (admin_changed old_admin new_admin event_schema_version)

  unfoldable pub set_paused : Bool → Contract (State W) RouterError (Unit {0})
  set_paused halted = do
    admin ← read_admin
    require_auth env admin
    modify (λ s. record s { paused = some halted })
    extend_instance
    publish (pause_changed admin halted event_schema_version)

  unfoldable pub set_protocol : Symbol → Address → Contract (State W) RouterError (Unit {0})
  set_protocol protocol adapter = do
    admin ← read_admin
    require_auth env admin
    modify (λ s. record s { protocols = put protocol adapter s.protocols })
    extend_entry (protocol_key protocol)
    publish (protocol_set protocol adapter event_schema_version)

  unfoldable pub remove_protocol : Symbol → Contract (State W) RouterError (Unit {0})
  remove_protocol protocol = do
    admin ← read_admin
    require_auth env admin
    fail_if (not (has (← gets (λ s. s.protocols protocol)))) protocol_not_found
    modify (λ s. record s { protocols = delete protocol s.protocols })
    publish (protocol_removed protocol event_schema_version)

  unfoldable pub upgrade : Hash → Contract (State W) RouterError (Unit {0})
  upgrade wasm_hash = do
    admin ← read_admin
    require_auth env admin
    publish (upgraded admin wasm_hash event_schema_version)
    if env.uploaded wasm_hash then modify (λ s. record s { code = wasm_hash }) else abort

module _ {W : Type 0} where
  unfoldable pub get_admin : Contract (State W) RouterError Address
  get_admin = read_admin

  unfoldable pub is_paused : Contract (State W) RouterError Bool
  is_paused = do read_admin; gets (λ s. unwrap_or s.paused false)

  unfoldable pub get_protocol : Symbol → Contract (State W) RouterError Address
  get_protocol protocol = do
    read_admin
    ok_or (← gets (λ s. s.protocols protocol)) protocol_not_found

-- `CARGO_PKG_VERSION`, the version that contracts/router/Cargo.toml states.
abbrev pub cargo_pkg_version : String
cargo_pkg_version = "0.1.0"

abbrev pub version : {W : Type 0} → Contract (State W) RouterError String
version = pure cargo_pkg_version
