-- ===== src/Donations/Lifetime.antt =====
-- The contract's own funds over its whole life (contracts/donations/src/lib.rs, "Non-custodial"): any
-- invocations of its entry points, and what other contracts do in between.
use stellariq_contract.Prelude.{
  ℕ, ◌≡◌, ◌≢◌, refl, sym, ◌∙◌, some, none, Option, Bool, false, ◌&&◌, ◌==◌, String, ℤ, arith,
  nat_eq, pair_eq,
}
use stellariq_contract.Soroban.{Address, Env, Tokens, Outcome, ok, err, trap, invoke}
use stellariq_contract.Soroban.Payments.{untouched}
use stellariq_contract.Soroban.Sep41.{IsLedger}
use stellariq_contract.Donations.Types.{DonationError, Campaign, State}
use stellariq_contract.Donations.Defs.{set_paused, create_campaign, close_campaign, donate}
use stellariq_contract.Donations.Campaigns.{
  CreateEnds, create_campaign-CreateEnds, Closable, CloseEnds, close_campaign-CloseEnds,
}
use stellariq_contract.Donations.Donating.{Ends, donate-Ends}
use stellariq_contract.Donations.Steps.{drop_id}
use stellariq_contract.Donations.Entries.{
  Entry, set_paused_entry, create_entry, close_entry, donate_entry, perform,
}

-- No campaign on record is for this account.
abbrev pub IsForOthers : {W : Type 0} → Address → State W → Type 0
IsForOthers self s = (id : ℕ) (c : Campaign) → s.campaigns id ≡ some c → c.beneficiary ≢ self

set_paused_leaves :
    {W : Type 0} (env : Env) (halted : Bool) (s : State W)
    → let t = (invoke (set_paused env halted) s).1 in
      ((id : ℕ) → t.campaigns id ≡ s.campaigns id) × (t.world ≡ s.world)
unfolding set_paused
set_paused_leaves env halted s = (λ id. ground arith, ground arith)

module _ {W : Type 0} (tokens : Tokens W) (funds : W → Address → Address → ℤ) (self : Address) where
  -- Nobody opens a campaign for the contract itself.
  abbrev pub IsProper : Entry → Type 0
  IsProper (create_entry creator beneficiary token title description goal deadline) =
      beneficiary ≢ self
  IsProper _ = Unit

  -- The storages that the contract can have after `s`. It signs no call of its own, and other contracts
  -- change its balances in no other way than by its own calls.
  pub data Life (s : State W) : State W → Type 0 where
    begun : Life s s
    invoked :
        {t : State W} (env : Env) (e : Entry)
        → env.signed self ≡ false
        → IsProper e
        → Life s t
        → Life s (perform tokens env e t)
    outside :
        {t : State W} (w : W)
        → ((u : Address) → funds w u self ≡ funds t.world u self)
        → Life s t
        → Life s (record t { world = w })

  -- All campaigns are for others, and the contract's balances are those of `s`.
  pub record IsUntouched (s t : State W) : Type 0 where
    pub for_others : IsForOthers self t
    pub same : (u : Address) → funds s.world u self ≡ funds t.world u self

  IsUntouched-start : (s : State W) → IsForOthers self s → IsUntouched s s
  IsUntouched-start s others = record { for_others = others; same = λ u. refl }

  module _ (ledger : IsLedger tokens funds) (env : Env) (silent : env.signed self ≡ false) where
    open ledger use {transfer_funds}

    create-IsUntouched :
        (creator beneficiary token : Address) (title description : String) (goal : ℤ) (deadline : ℕ)
        (s : State W) (r : Outcome DonationError ℕ × State W)
        → beneficiary ≢ self
        → IsForOthers self s
        → CreateEnds env creator beneficiary token title description goal deadline s r
        → IsUntouched s (invoke (drop_id tokens env s r) s).1
    create-IsUntouched creator beneficiary token title description goal deadline s (ok id, t) proper
          others (_, _, _, made) =
        record {
          for_others = λ k c found. ground (arith, others k c, made);
          same = λ u. ground (arith, made);
        }
    create-IsUntouched creator beneficiary token title description goal deadline s (err e, t) proper
          others v =
        IsUntouched-start s others
    create-IsUntouched creator beneficiary token title description goal deadline s (trap, t) proper
          others v =
        IsUntouched-start s others

    closed-IsUntouched :
        (caller : Address) (id : ℕ) (s : State W) (o : Option Campaign) (t : State W)
        → s.campaigns id ≡ o
        → IsForOthers self s
        → Closable env caller id s o t
        → IsUntouched s t
    closed-IsUntouched caller id s none t found others v = absurd v
    closed-IsUntouched caller id s (some c) t found others (_, _, made) = record {
      for_others = λ k d at. ground (arith, others k d, others id c found, made);
      same = λ u. ground (arith, made);
    }

    close-IsUntouched :
        (caller : Address) (id : ℕ) (s : State W) (r : Outcome DonationError (Unit {0}) × State W)
        → IsForOthers self s
        → CloseEnds env caller id s r
        → IsUntouched s (invoke (λ _. r) s).1
    close-IsUntouched caller id s (ok _, t) others (_, v) =
        closed-IsUntouched caller id s (s.campaigns id) t refl others v
    close-IsUntouched caller id s (err e, t) others v = IsUntouched-start s others
    close-IsUntouched caller id s (trap, t) others v = IsUntouched-start s others

    donate-IsUntouched :
        (donor : Address) (campaign_id : ℕ) (amount : ℤ) (memo : String) (s : State W)
        (r : Outcome DonationError ℕ × State W)
        → IsForOthers self s
        → Ends tokens env donor campaign_id amount memo s r
        → IsUntouched s (invoke (drop_id tokens env s r) s).1
    donate-IsUntouched donor campaign_id amount memo s (ok id, t) others
          (c, admitted, _, _, paid, _, made) =
        let other = others campaign_id c admitted.found in
        record {
          for_others = λ k d at. ground (arith, others k d, other, made);
          same = λ u.
              untouched (u == c.token && self == c.beneficiary) (u == c.token && self == donor)
                (funds s.world u self) (funds t.world u self) amount (ground arith)
                (ground (arith, admitted.signed))
                (transfer_funds s.world env.contract c.token donor c.beneficiary amount t.world u
                  self paid);
        }
    donate-IsUntouched donor campaign_id amount memo s (err e, t) others v =
        IsUntouched-start s others
    donate-IsUntouched donor campaign_id amount memo s (trap, t) others v =
        IsUntouched-start s others

    perform-IsUntouched :
        (e : Entry) (s : State W)
        → IsProper e
        → IsForOthers self s
        → IsUntouched s (perform tokens env e s)
    unfolding perform
    perform-IsUntouched (set_paused_entry halted) s proper others =
        let (kept, same) = set_paused_leaves env halted s in
        record {
          for_others = λ k c found. others k c (sym (kept k) ∙ found);
          same = λ u. ground (arith, same);
        }
    perform-IsUntouched (create_entry creator beneficiary token title description goal deadline) s
          proper others =
        create-IsUntouched creator beneficiary token title description goal deadline s
          (create_campaign env creator beneficiary token title description goal deadline s) proper
          others
          (create_campaign-CreateEnds env creator beneficiary token title description goal deadline
            s)
    perform-IsUntouched (close_entry caller id) s proper others =
        close-IsUntouched caller id s (close_campaign env caller id s) others
          (close_campaign-CloseEnds env caller id s)
    perform-IsUntouched (donate_entry donor campaign_id amount memo) s proper others =
        donate-IsUntouched donor campaign_id amount memo s
          (donate tokens env donor campaign_id amount memo s) others
          (donate-Ends tokens env donor campaign_id amount memo s)

  -- Where the tokens keep to SEP-41: whatever invocations the contract gets, by anybody and at any time,
  -- with anything that others do in between as long as it leaves the contract's balances alone, every
  -- balance of the contract stays what it was: it never holds donated funds. The contract signs nothing,
  -- and no campaign is for the contract itself, which the code does not check.
  pub never_holds :
      IsLedger tokens funds
      → {s t : State W} → IsForOthers self s
      → Life s t
      → (u : Address) → funds s.world u self ≡ funds t.world u self
  never_holds ledger {s} others life = (kept life).same
    where
      kept : {t : State W} → Life s t → IsUntouched s t
      kept begun = IsUntouched-start s others
      kept (invoked {t} env e silent proper r) =
          let before = kept r in
          let step = perform-IsUntouched ledger env silent e t proper before.for_others in
          record { for_others = step.for_others; same = λ u. before.same u ∙ step.same u }
      kept (outside {t} w same r) =
          let before = kept r in
          record { for_others = before.for_others; same = λ u. before.same u ∙ sym (same u) }
