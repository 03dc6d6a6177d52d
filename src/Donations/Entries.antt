-- ===== src/Donations/Entries.antt =====
-- The entry points of the donations contract that change state (contracts/donations/src/lib.rs,
-- `impl Donations`), as data: what one top-level invocation does, and the storages that any sequence
-- of them can reach from the constructor's.
use stellariq_contract.Prelude.{ℕ, Bool, none, [], String, ℤ, empty}
use stellariq_contract.Soroban.{Address, Env, Tokens, Contract, pure, invoke, ◌>>◌}
use stellariq_contract.Donations.Types.{DonationError, State}
use stellariq_contract.Donations.Defs.{
  constructor, set_paused, create_campaign, close_campaign, donate,
}

pub data Entry : Type 0 where
  set_paused_entry : (halted : Bool) → Entry
  create_entry :
      (creator beneficiary token : Address) (title description : String) (goal : ℤ) (deadline : ℕ)
      → Entry
  close_entry : (caller : Address) (id : ℕ) → Entry
  donate_entry : (donor : Address) (campaign_id : ℕ) (amount : ℤ) (memo : String) → Entry

-- The storage before the constructor has run.
abbrev pub blank : {W : Type 0} → W → State W
blank w = record {
  admin = none;
  paused = none;
  campaign_count = none;
  receipt_count = none;
  campaigns = empty;
  receipts = empty;
  donor_totals = empty;
  events = [];
  extensions = [];
  world = w;
}

module _ {W : Type 0} (tokens : Tokens W) where
  unfoldable pub call : Env → Entry → Contract (State W) DonationError (Unit {0})
  call env (set_paused_entry halted) = set_paused env halted
  call env (create_entry creator beneficiary token title description goal deadline) =
      create_campaign env creator beneficiary token title description goal deadline >> pure tt
  call env (close_entry caller id) = close_campaign env caller id
  call env (donate_entry donor campaign_id amount memo) =
      donate tokens env donor campaign_id amount memo >> pure tt

  -- The storage after an invocation, which the host rolls back unless it returns a value.
  unfoldable pub perform : Env → Entry → State W → State W
  unfolding call
  perform env e s = (invoke (call env e) s).1

  -- The storages that invocations of a contract deployed for `admin` and changes of the other
  -- contracts lead to.
  pub data Reach (admin : Address) : State W → Type 0 where
    deployed : (w : W) → Reach admin (constructor admin (blank w)).1
    invoked : {t : State W} (env : Env) (e : Entry) → Reach admin t → Reach admin (perform env e t)
    outside : {t : State W} (w : W) → Reach admin t → Reach admin (record t { world = w })
