-- ===== src/Router/Registry.antt =====
-- The protocol registry and the views (contracts/router/src/lib.rs): what is read back after a write,
-- and that a paused router still takes the admin's calls.
use stellariq_contract.Prelude.{
  ◌≡◌, true, Option, none, some, arith, not, ◌&&◌, ◌==◌, if◌then◌else◌, string_eq, eq_iff,
}
use stellariq_contract.Soroban.{Address, Symbol, Env, Outcome, ok, err, trap, has}
use stellariq_contract.Interfaces.{RouterError, protocol_not_found, invalid_admin}
use stellariq_contract.Router.Storage.{State}
use stellariq_contract.Router.Admin.{
  set_admin, set_protocol, remove_protocol, get_admin, get_protocol, is_paused,
}

module _ {W : Type 0} (env : Env) (s : State W) (admin : Address) where
  -- What `get_protocol` reports of a registry entry.
  abbrev pub entry_outcome : Option Address → Outcome RouterError Address
  entry_outcome none = err protocol_not_found
  entry_outcome (some a) = ok a

  -- After `set_protocol`, which the admin's authorization always lets through, `get_protocol` gives the
  -- new adapter for that protocol and what it gave before for every other.
  pub get_protocol-set_protocol :
      (protocol : Symbol) (adapter : Address)
      → s.admin ≡ some admin
      → env.signed admin ≡ true
      → let (r, t) = set_protocol env protocol adapter s in
        (r ≡ ok tt)
        × ((q : Symbol)
            → (get_protocol q t).0
              ≡ (if string_eq.beq protocol q then ok adapter else (get_protocol q s).0))
  unfolding set_protocol get_protocol
  get_protocol-set_protocol protocol adapter e n =
      (ground arith, λ q. ground (arith, eq_iff protocol q))

  -- With the admin's authorization `remove_protocol` returns where the protocol is registered, and
  -- reports `ProtocolNotFound` where it is not. Either way `get_protocol` then fails for it, and gives
  -- what it gave before for every other.
  pub get_protocol-remove_protocol :
      (protocol : Symbol)
      → s.admin ≡ some admin
      → env.signed admin ≡ true
      → let (r, t) = remove_protocol env protocol s in
        (r ≡ (if has (s.protocols protocol) then ok tt else err protocol_not_found))
        × ((q : Symbol)
            → (get_protocol q t).0
              ≡ (if string_eq.beq protocol q then err protocol_not_found else (get_protocol q s).0))
  unfolding remove_protocol get_protocol
  get_protocol-remove_protocol protocol e n = (ground arith, λ q. ground (arith, eq_iff protocol q))

  -- `set_admin` traps without the authorization of the stored admin, refuses the same address, and
  -- otherwise hands the router over: `get_admin` then gives the new address exactly in the last case,
  -- and the old one in the others. The pause flag stays as it is.
  pub get_admin-set_admin :
      (new_admin : Address)
      → s.admin ≡ some admin
      → let (r, t) = set_admin env new_admin s in
        (r ≡ (
          if not (env.signed admin)
          then trap
          else if new_admin == admin
          then err invalid_admin
          else ok tt))
        × ((get_admin t).0
            ≡ (if env.signed admin && not (new_admin == admin) then ok new_admin else ok admin))
        × ((is_paused t).0 ≡ (is_paused s).0)
  unfolding set_admin get_admin is_paused
  get_admin-set_admin new_admin e = (ground arith, ground arith, ground arith)
