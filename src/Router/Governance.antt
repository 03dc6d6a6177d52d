-- ===== src/Router/Governance.antt =====
-- Who may change what of the router (contracts/router/src/lib.rs): the admin's authority, the protocol
-- registry, the errors and the TTL extensions of each entry point.
use stellariq_contract.Prelude.{
  ℕ, ◌≡◌, ◌≢◌, refl, false, some, List, [], ◌∷◌, ◌++◌, ℤ, arith, string_eq, append-nil,
}
use stellariq_contract.Soroban.{
  Address, Symbol, Env, Tokens, Outcome, Extension, instance_ttl, entry_ttl, ok, err, trap,
  Contract, pure, invoke, ◌>>◌,
}
use stellariq_contract.Interfaces.{RouterError, SwapStep, Adapters, not_authorized}
use stellariq_contract.Router.Storage.{State, DataKey, protocol_key, ttl_threshold, ttl_extend}
use stellariq_contract.Router.Admin.{
  initialize, set_admin, set_paused, set_protocol, remove_protocol, upgrade, get_admin, is_paused,
  get_protocol, version,
}
use stellariq_contract.Router.Swap.{swap}
use stellariq_contract.Router.Outcomes.{Ends, swap-Ends}
use stellariq_contract.Router.Entries.{
  Entry, initialize_entry, set_admin_entry, set_paused_entry, set_protocol_entry,
  remove_protocol_entry, upgrade_entry, swap_entry, call, perform,
}

-- What the admin governs.
pub record SameConfig {W : Type 0} (s t : State W) : Type 0 where
  pub same_admin : t.admin ≡ s.admin
  pub same_paused : t.paused ≡ s.paused
  pub same_protocols : t.protocols ≡ s.protocols
  pub same_code : t.code ≡ s.code

module _ {W : Type 0} (tokens : Tokens W) (adapters : Adapters W) (env : Env) where
  -- What a `swap` entry leaves behind, by how it ends.
  abbrev pub SwapLeaves : State W → Outcome RouterError ℤ × State W → Type 0
  SwapLeaves s (ok _, t) =
      SameConfig s t × (t.extensions ≡ s.extensions ++ (instance_ttl ttl_threshold ttl_extend ∷ []))
  SwapLeaves s (err e, t) = e ≢ not_authorized
  SwapLeaves s (trap, t) = Unit

  swap-SwapLeaves :
      (trader token_in token_out : Address) (amount_in amount_out_min : ℤ) (deadline : ℕ)
      (path : List SwapStep) (s : State W) (r : Outcome RouterError ℤ × State W)
      → Ends tokens adapters env trader token_in token_out amount_in amount_out_min deadline path s
          r
      → SwapLeaves s r
  swap-SwapLeaves trader token_in token_out amount_in amount_out_min deadline path s (ok out, t)
        (_, _, (amounts, _, _, _, _, e)) =
      ground arith
  swap-SwapLeaves trader token_in token_out amount_in amount_out_min deadline path s (err e, t) h =
      ground arith
  swap-SwapLeaves trader token_in token_out amount_in amount_out_min deadline path s (trap, t) h =
      tt

  -- The entry that runs a swap whose outcome is known.
  abbrev drop_amount : Outcome RouterError ℤ × State W → Contract (State W) RouterError (Unit {0})
  drop_amount r = (λ _. r) >> pure tt

  invoked-SameConfig :
      (s : State W) (r : Outcome RouterError ℤ × State W)
      → SwapLeaves s r
      → SameConfig s (invoke (drop_amount r) s).1
  invoked-SameConfig s (ok out, t) h = h.0
  invoked-SameConfig s (err e, t) h = ground arith
  invoked-SameConfig s (trap, t) h = ground arith

  -- Without the authorization of the stored admin, no invocation changes the admin, the pause flag, the
  -- protocol registry or the code, whatever its arguments.
  pub config_needs_admin :
      (e : Entry) (s : State W) (admin : Address)
      → s.admin ≡ some admin
      → env.signed admin ≡ false
      → SameConfig s (perform tokens adapters env e s)
  unfolding perform initialize set_admin set_paused set_protocol remove_protocol upgrade
  config_needs_admin (initialize_entry a) s admin e n = ground arith
  config_needs_admin (set_admin_entry a) s admin e n = ground arith
  config_needs_admin (set_paused_entry b) s admin e n = ground arith
  config_needs_admin (set_protocol_entry p a) s admin e n = ground arith
  config_needs_admin (remove_protocol_entry p) s admin e n = ground arith
  config_needs_admin (upgrade_entry h) s admin e n = ground arith
  config_needs_admin (swap_entry trader token_in token_out x y d path) s admin e n =
      invoked-SameConfig s (swap tokens adapters env trader token_in token_out x y d path s) (
        swap-SwapLeaves trader token_in token_out x y d path s _
          (swap-Ends tokens adapters env trader token_in token_out x y d path s))

  -- Only `upgrade` changes the code.
  abbrev pub KeepsCode : Entry → Type 0
  KeepsCode (upgrade_entry _) = ⊥
  KeepsCode _ = Unit

  pub perform-code :
      (e : Entry) (s : State W) → KeepsCode e → (perform tokens adapters env e s).code ≡ s.code
  unfolding perform initialize set_admin set_paused set_protocol remove_protocol upgrade
  perform-code (initialize_entry a) s k = ground arith
  perform-code (set_admin_entry a) s k = ground arith
  perform-code (set_paused_entry b) s k = ground arith
  perform-code (set_protocol_entry p a) s k = ground arith
  perform-code (remove_protocol_entry p) s k = ground arith
  perform-code (upgrade_entry h) s k = absurd k
  perform-code (swap_entry trader token_in token_out x y d path) s k =
      let same =
        invoked-SameConfig s (swap tokens adapters env trader token_in token_out x y d path s) (
          swap-SwapLeaves trader token_in token_out x y d path s _
            (swap-Ends tokens adapters env trader token_in token_out x y d path s)) in
      same.same_code

  -- The TTL extension that an entry point asks for.
  abbrev pub extension_of : Entry → List (Extension DataKey)
  extension_of (set_protocol_entry protocol _) =
      entry_ttl (protocol_key protocol) ttl_threshold ttl_extend ∷ []
  extension_of (remove_protocol_entry _) = []
  extension_of (upgrade_entry _) = []
  extension_of _ = instance_ttl ttl_threshold ttl_extend ∷ []

  dropped-extensions :
      (s : State W) (r : Outcome RouterError ℤ × State W) {x : Unit {0}} {t : State W}
      → SwapLeaves s r
      → drop_amount r s ≡ (ok x, t)
      → t.extensions ≡ s.extensions ++ (instance_ttl ttl_threshold ttl_extend ∷ [])
  dropped-extensions s (ok out, u) h e = ground arith
  dropped-extensions s (err a, u) h e = cc
  dropped-extensions s (trap, u) h e = cc

  entry-extensions :
      (e : Entry) (s t : State W) (x : Unit {0})
      → call tokens adapters env e s ≡ (ok x, t)
      → t.extensions ≡ s.extensions ++ extension_of e
  unfolding call initialize set_admin set_paused set_protocol remove_protocol upgrade
  entry-extensions (initialize_entry a) s t x h = ground arith
  entry-extensions (set_admin_entry a) s t x h = ground arith
  entry-extensions (set_paused_entry b) s t x h = ground arith
  entry-extensions (set_protocol_entry p a) s t x h = ground arith
  entry-extensions (remove_protocol_entry p) s t x h = ground (arith, append-nil s.extensions)
  entry-extensions (upgrade_entry c) s t x h = ground (arith, append-nil s.extensions)
  entry-extensions (swap_entry trader token_in token_out y z d path) s t x h =
      dropped-extensions s (swap tokens adapters env trader token_in token_out y z d path s) {x = x}
        {t = t}
        (swap-SwapLeaves trader token_in token_out y z d path s _
          (swap-Ends tokens adapters env trader token_in token_out y z d path s))
        h

  -- An entry point that may change the storage and returns has extended the instance's life once, but for
  -- three: `set_protocol` extends the registry entry alone, and `remove_protocol` and `upgrade` extend
  -- nothing. The views `get_admin`, `is_paused`, `get_protocol` and `version` extend nothing either: they
  -- leave the storage as it is.
  pub call-extensions :
      (s : State W)
      → ((e : Entry) (t : State W) (x : Unit {0})
          → call tokens adapters env e s ≡ (ok x, t)
          → t.extensions ≡ s.extensions ++ extension_of e)
        × ((get_admin s).1 ≡ s)
        × ((is_paused s).1 ≡ s)
        × ((q : Symbol) → (get_protocol q s).1 ≡ s)
        × ((version s).1 ≡ s)
  unfolding get_admin is_paused get_protocol
  call-extensions s =
      (λ e t x h. entry-extensions e s t x h, ground arith, ground arith, λ q. ground arith, refl)
