-- ===== src/Soroban/Host.antt =====
-- What the contracts use of the Soroban host: addresses, the invocation's context and its
-- authorizations, time-to-live extensions, and the SEP-41 token contracts, which are parameters.
use stellariq_contract.Prelude.{ℕ, String, Bool, Option, if◌then◌else◌, ℤ}
use stellariq_contract.Soroban.Execution.{Contract, pure, abort}

-- An address is only stored, passed on and compared.
abbrev pub Address : Type 0
Address = ℕ

abbrev pub Symbol : Type 0
Symbol = String

-- A `BytesN<32>`, the hash of a Wasm executable.
abbrev pub Hash : Type 0
Hash = ℕ

-- The context of one invocation. `signed` tells whose authorization covers this call,
-- and `uploaded` which Wasm executables the ledger holds.
pub record Env : Type 0 where
  pub contract : Address
  pub timestamp : ℕ
  pub sequence : ℕ
  pub signed : Address → Bool
  pub uploaded : Hash → Bool

-- `address.require_auth()`
abbrev pub require_auth : {S E : Type 0} → Env → Address → Contract S E (Unit {0})
require_auth env a = if env.signed a then pure tt else abort

-- A request to extend the life of the instance, or of one persistent entry.
pub data Extension (K : Type 0) : Type 0 where
  instance_ttl : ℕ → ℕ → Extension K
  entry_ttl : K → ℕ → ℕ → Extension K

-- The token contracts, over the state `W` of all other contracts. The first address after the state
-- is the contract that makes the call; no result means that the call traps.
pub record Tokens (W : Type 0) : Type 0 where
  -- token, holder
  pub balance : W → Address → Address → Option ℤ
  -- invoker, token, from, to, amount
  pub transfer : W → Address → Address → Address → Address → ℤ → Option W
