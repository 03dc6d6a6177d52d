-- ===== src/Donations/Replay.antt =====
-- The events as a record of the donations contract (contracts/donations/src/lib.rs): an indexer that
-- replays them knows every campaign's terms and counters, every receipt's donor and amount, and every
-- donor's total.
use stellariq_contract.Prelude.{ℕ, ◌≡◌, refl, some, String, ℤ, arith, nat_eq, pair_eq}
use stellariq_contract.Soroban.{Address, Env, Tokens}
use stellariq_contract.Donations.Types.{Campaign, State}
use stellariq_contract.Donations.Observer.{nothing, replay, Shows, replay-snoc}
use stellariq_contract.Donations.Campaigns.{created, closed}
use stellariq_contract.Donations.Donating.{donated}
use stellariq_contract.Donations.Defs.{constructor}
use stellariq_contract.Donations.Entries.{blank, perform, Reach, deployed, invoked, outside}
use stellariq_contract.Donations.Steps.{Step, stays, pauses, creates, closes, donates, perform-Step}
use stellariq_contract.Donations.Books.{IsKept}
use stellariq_contract.Donations.Reachable.{Reach-IsKept}

-- The events so far show the storage.
abbrev pub Shown : {W : Type 0} → State W → Type 0
Shown s = Shows (replay s.events nothing) s

module _ {W : Type 0} (tokens : Tokens W) (env : Env) (s : State W) where
  created-Shown :
      (creator beneficiary token : Address) (title description : String) (goal : ℤ) (deadline : ℕ)
      → Shown s
      → Shown (created env creator beneficiary token title description goal deadline s)
  created-Shown creator beneficiary token title description goal deadline h =
      rw (replay-snoc s.events _ nothing) (record {
        campaigns_shown = λ k. ground (arith, h.campaigns_shown k);
        gifts_shown = h.gifts_shown;
        totals_shown = h.totals_shown;
        campaigns_counted = refl;
        receipts_counted = h.receipts_counted;
      })

  closed-Shown :
      (caller : Address) (id : ℕ) (c : Campaign)
      → s.campaigns id ≡ some c
      → IsKept s
      → Shown s
      → Shown (closed env caller id s c)
  closed-Shown caller id c found kept h =
      let at = kept.named id c found in
      rw (replay-snoc s.events _ nothing) (record {
        campaigns_shown = λ k. ground (arith, h.campaigns_shown k);
        gifts_shown = h.gifts_shown;
        totals_shown = h.totals_shown;
        campaigns_counted = h.campaigns_counted;
        receipts_counted = h.receipts_counted;
      })

  donated-Shown :
      (donor : Address) (campaign_id : ℕ) (amount : ℤ) (memo : String) (c : Campaign) (w : W)
      → s.campaigns campaign_id ≡ some c
      → IsKept s
      → Shown s
      → Shown (donated tokens env donor campaign_id amount memo s c w)
  donated-Shown donor campaign_id amount memo c w found kept h =
      let at = kept.named campaign_id c found in
      let before = h.totals_shown campaign_id donor in
      rw (replay-snoc s.events _ nothing) (record {
        campaigns_shown = λ k. ground (arith, h.campaigns_shown k);
        gifts_shown = λ i. ground (arith, h.gifts_shown i);
        totals_shown = λ k d. ground (arith, h.totals_shown k d);
        campaigns_counted = h.campaigns_counted;
        receipts_counted = refl;
      })

module _ {W : Type 0} (tokens : Tokens W) (env : Env) where
  Step-Shown : (s t : State W) → Step tokens env s t → IsKept s → Shown s → Shown t
  Step-Shown s t stays kept h = h
  Step-Shown s t (pauses halted admin e n) kept h = record {
    campaigns_shown = h.campaigns_shown;
    gifts_shown = h.gifts_shown;
    totals_shown = h.totals_shown;
    campaigns_counted = h.campaigns_counted;
    receipts_counted = h.receipts_counted;
  }
  Step-Shown s t (creates creator beneficiary token title description goal deadline _ _) kept h =
      created-Shown tokens env s creator beneficiary token title description goal deadline h
  Step-Shown s t (closes caller id c n found may is_open) kept h =
      closed-Shown tokens env s caller id c found kept h
  Step-Shown s t (donates donor campaign_id amount memo c w admitted _ _ paid) kept h =
      donated-Shown tokens env s donor campaign_id amount memo c w admitted.found kept h

module _ {W : Type 0} (tokens : Tokens W) (admin : Address) where
  constructed-Shown : (w : W) → Shown (constructor {W = W} admin (blank w)).1
  unfolding constructor replay
  constructed-Shown w = record {
    campaigns_shown = λ k. refl;
    gifts_shown = λ i. refl;
    totals_shown = λ k d. refl;
    campaigns_counted = refl;
    receipts_counted = refl;
  }

  -- Replaying the events of a deployed donations contract, after any invocations of it, gives the
  -- terms, the sum, the counts and the state of each campaign, the campaign, donor and amount of each
  -- receipt, every donor's total, and the last ids, as the contract has them.
  pub Reach-Shown : (t : State W) → Reach tokens admin t → Shown t
  Reach-Shown t (deployed w) = constructed-Shown w
  Reach-Shown t (invoked {t = s} env e r) =
      Step-Shown tokens env s (perform tokens env e s) (perform-Step tokens env s e)
        (Reach-IsKept tokens admin s r) (Reach-Shown s r)
  Reach-Shown t (outside {t = s} w r) =
      let h = Reach-Shown s r in
      record {
        campaigns_shown = h.campaigns_shown;
        gifts_shown = h.gifts_shown;
        totals_shown = h.totals_shown;
        campaigns_counted = h.campaigns_counted;
        receipts_counted = h.receipts_counted;
      }
