-- ===== src/Router/Entries.antt =====
-- The entry points of the router that change state (contracts/router/src/lib.rs, `impl Router`), as
-- data: what one top-level invocation does, and the storages that any sequence of them can reach.
use stellariq_contract.Prelude.{ℕ, ◌≡◌, Bool, none, [], List, ℤ, empty}
use stellariq_contract.Soroban.{Address, Symbol, Hash, Env, Tokens, Contract, pure, invoke, ◌>>◌}
use stellariq_contract.Interfaces.{RouterError, SwapStep, Adapters}
use stellariq_contract.Router.Storage.{State}
use stellariq_contract.Router.Admin.{
  initialize, set_admin, set_paused, set_protocol, remove_protocol, upgrade,
}
use stellariq_contract.Router.Swap.{swap}

pub data Entry : Type 0 where
  initialize_entry : (admin : Address) → Entry
  set_admin_entry : (new_admin : Address) → Entry
  set_paused_entry : (halted : Bool) → Entry
  set_protocol_entry : (protocol : Symbol) (adapter : Address) → Entry
  remove_protocol_entry : (protocol : Symbol) → Entry
  upgrade_entry : (wasm_hash : Hash) → Entry
  swap_entry :
      (trader token_in token_out : Address) (amount_in amount_out_min : ℤ) (deadline : ℕ)
      (path : List SwapStep)
      → Entry

module _ {W : Type 0} (tokens : Tokens W) (adapters : Adapters W) where
  unfoldable pub call : Env → Entry → Contract (State W) RouterError (Unit {0})
  call env (initialize_entry admin) = initialize env admin
  call env (set_admin_entry new_admin) = set_admin env new_admin
  call env (set_paused_entry halted) = set_paused env halted
  call env (set_protocol_entry protocol adapter) = set_protocol env protocol adapter
  call env (remove_protocol_entry protocol) = remove_protocol env protocol
  call env (upgrade_entry wasm_hash) = upgrade env wasm_hash
  call env (swap_entry trader token_in token_out amount_in amount_out_min deadline path) =
      swap tokens adapters env trader token_in token_out amount_in amount_out_min deadline path
      >> pure tt

  -- The storage after an invocation, which the host rolls back unless it returns a value.
  unfoldable pub perform : Env → Entry → State W → State W
  unfolding call
  perform env e s = (invoke (call env e) s).1

  -- The storages that invocations of the router and changes of the other contracts lead to. An
  -- invocation runs this code only as long as no `upgrade` has put another in its place.
  pub data Reach (s : State W) : State W → Type 0 where
    here : Reach s s
    invoked :
        {t : State W} (env : Env) (e : Entry)
        → t.code ≡ s.code
        → Reach s t
        → Reach s (perform env e t)
    outside : {t : State W} (w : W) → Reach s t → Reach s (record t { world = w })

-- The storage of a contract that has just been deployed.
abbrev pub deployed : {W : Type 0} → Hash → W → State W
deployed code w = record {
  admin = none;
  paused = none;
  nonce = none;
  protocols = empty;
  code = code;
  events = [];
  extensions = [];
  world = w;
}
