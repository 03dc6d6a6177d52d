-- ===== src/Interfaces/Types.antt =====
-- interfaces/src/lib.rs: constants, route steps, swap parameters, events and the adapter interface.
use stellariq_contract.Prelude.{ℕ, Bool, List, ℤ, pos}
use stellariq_contract.Soroban.{Address, Symbol, Hash}
use stellariq_contract.Interfaces.Errors.{AdapterError}

-- `MAX_HOPS`
abbrev pub max_hops : ℕ
max_hops = 5

-- `BPS_DENOM`
abbrev pub bps_denom : ℤ
bps_denom = pos 10000

-- `EVENT_SCHEMA_VERSION`
abbrev pub event_schema_version : ℕ
event_schema_version = 1

pub record SwapStep : Type 0 where
  pub protocol : Symbol
  pub pool : Address
  pub token_in : Address
  pub token_out : Address
  pub amount_out_min : ℤ

pub record SwapParams : Type 0 where
  pub trader : Address
  pub token_in : Address
  pub token_out : Address
  pub amount_in : ℤ
  pub amount_out_min : ℤ
  pub deadline : ℕ
  pub path : List SwapStep

pub record SwapExecuted : Type 0 where
  pub trader : Address
  pub token_in : Address
  pub token_out : Address
  pub amount_in : ℤ
  pub amount_out : ℤ
  pub protocols : List Symbol
  pub execution_id : ℕ
  pub ledger : ℕ
  pub version : ℕ

pub record HopExecuted : Type 0 where
  pub execution_id : ℕ
  pub trader : Address
  pub hop_index : ℕ
  pub protocol : Symbol
  pub pool : Address
  pub token_in : Address
  pub token_out : Address
  pub amount_in : ℤ
  pub amount_out : ℤ
  pub version : ℕ

-- The events that the router publishes. The two of a swap have records of their own.
pub data Event : Type 0 where
  swap_executed : SwapExecuted → Event
  hop_executed : HopExecuted → Event
  initialized : (admin : Address) (version : ℕ) → Event
  admin_changed : (old_admin new_admin : Address) (version : ℕ) → Event
  pause_changed : (admin : Address) (halted : Bool) (version : ℕ) → Event
  protocol_set : (protocol : Symbol) (adapter : Address) (version : ℕ) → Event
  protocol_removed : (protocol : Symbol) (version : ℕ) → Event
  upgraded : (admin : Address) (wasm_hash : Hash) (version : ℕ) → Event

-- What `AdapterClient::try_swap` hands back: a value, a value of another type, one of the adapter's
-- own errors, or a failure of the host. The host undoes what a failed call did.
pub data Reply (W : Type 0) : Type 0 where
  value : ℤ → W → Reply W
  unreadable : W → Reply W
  refused : AdapterError → Reply W
  aborted : Reply W

-- The trait `Adapter`: the arguments of one call, and the adapters themselves over the state `W` of
-- all other contracts.
pub record AdapterCall : Type 0 where
  pub pool : Address
  pub token_in : Address
  pub token_out : Address
  pub amount_in : ℤ
  pub amount_out_min : ℤ
  pub recipient : Address

pub record Adapters (W : Type 0) : Type 0 where
  -- adapter, arguments
  pub try_swap : W → Address → AdapterCall → Reply W
