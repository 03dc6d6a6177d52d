-- ===== src/Router/Storage.antt =====
-- contracts/router/src/lib.rs: the storage keys and the storage, TTL policy, and the private helpers
-- `read_admin`, `peek_nonce` and `next_nonce`.
use stellariq_contract.Prelude.{
  ℕ, ◌+◌, ◌^◌, Bool, Option, none, some, List, [], ◌∷◌, ◌++◌, ltb, if◌then◌else◌, Map,
}
use stellariq_contract.Soroban.{
  Address, Symbol, Hash, Contract, Extension, instance_ttl, entry_ttl, pure, gets, ok_or, modify,
  unwrap_or, ◌>>=◌, ◌>>◌,
}
use stellariq_contract.Interfaces.{RouterError, not_initialized, overflow, Event}

-- `enum DataKey`
pub data DataKey : Type 0 where
  admin_key paused_key nonce_key : DataKey
  protocol_key : Symbol → DataKey

-- `TTL_THRESHOLD`
abbrev pub ttl_threshold : ℕ
ttl_threshold = 100

-- `TTL_EXTEND`
abbrev pub ttl_extend : ℕ
ttl_extend = 10000

-- What the router reads and writes: an entry for each `DataKey` (the first three in instance, the
-- last in persistent storage), its code, the events and TTL extensions so far, oldest first, and the
-- state of all other contracts.
pub record State (W : Type 0) : Type 0 where
  pub admin : Option Address
  pub paused : Option Bool
  pub nonce : Option ℕ
  pub protocols : Map Symbol Address
  pub code : Hash
  pub events : List Event
  pub extensions : List (Extension DataKey)
  pub world : W

-- `checked_add` on a `u64`
abbrev pub checked_add_u64 : ℕ → ℕ → Option ℕ
checked_add_u64 a b = if ltb (a + b) (2 ^ 64) then some (a + b) else none

module _ {W : Type 0} where
  abbrev pub publish : Event → Contract (State W) RouterError (Unit {0})
  publish e = modify (λ s. record s { events = s.events ++ (e ∷ []) })

  abbrev pub extend_instance : Contract (State W) RouterError (Unit {0})
  extend_instance =
      modify
        λ s. record s { extensions = s.extensions ++ (instance_ttl ttl_threshold ttl_extend ∷ []) }

  abbrev pub extend_entry : DataKey → Contract (State W) RouterError (Unit {0})
  extend_entry key =
      modify
        λ s. record s { extensions = s.extensions ++ (entry_ttl key ttl_threshold ttl_extend ∷ []) }

  abbrev pub read_admin : Contract (State W) RouterError Address
  read_admin = do ok_or (← gets (λ s. s.admin)) not_initialized

  abbrev pub peek_nonce : Contract (State W) RouterError ℕ
  peek_nonce = do read_admin; gets (λ s. unwrap_or s.nonce 0)

  unfoldable pub next_nonce : Contract (State W) RouterError ℕ
  next_nonce = do
    next ← ok_or (checked_add_u64 (← peek_nonce) 1) overflow
    modify (λ s. record s { nonce = some next })
    pure next
