-- ===== src/Donations/Reachable.antt =====
-- Every invocation of the donations contract (contracts/donations/src/lib.rs) keeps its books, so
-- they are right in every storage that it can reach.
use stellariq_contract.Prelude.{ℕ, ◌+◌, ◌≡◌, Option, some, refl, String, ℤ, arith, Bool}
use stellariq_contract.Soroban.{Address, Env, Tokens, unwrap_or}
use stellariq_contract.Donations.Types.{Campaign, State}
use stellariq_contract.Donations.Defs.{constructor}
use stellariq_contract.Donations.Campaigns.{created, closed}
use stellariq_contract.Donations.Steps.{Step, stays, pauses, creates, closes, donates, perform-Step}
use stellariq_contract.Donations.Donors.{newcomers}
use stellariq_contract.Donations.Totals.{received, number}
use stellariq_contract.Donations.Books.{IsKept, donated-IsKept}
use stellariq_contract.Donations.Entries.{blank, perform, Reach, deployed, invoked, outside}

same-IsKept :
    {W : Type 0} (s : State W) (o : Option Bool) (w : W)
    → IsKept s
    → IsKept (record s { paused = o; world = w })
same-IsKept s o w h = record {
  named = h.named;
  unused = h.unused;
  stored = h.stored;
  raised = h.raised;
  donations = h.donations;
  donors = h.donors;
  totals = h.totals;
  numbered = h.numbered;
  issued = h.issued;
}

module _ {W : Type 0} (tokens : Tokens W) (env : Env) (s : State W) where
  created-IsKept :
      (creator beneficiary token : Address) (title description : String) (goal : ℤ) (deadline : ℕ)
      → IsKept s
      → IsKept (created env creator beneficiary token title description goal deadline s)
  created-IsKept creator beneficiary token title description goal deadline h =
      let free = h.unused (unwrap_or s.campaign_count 0 + 1) (omega arith) in
      record {
        named = λ k c' e. ground (arith, h.named k c');
        unused = λ k l. ground (arith, h.unused k);
        stored = λ k some_id l. ground (arith, h.stored k);
        raised = λ k. ground (arith, h.raised k);
        donations = λ k. ground (arith, h.donations k);
        donors = λ k. ground (arith, h.donors k);
        totals = h.totals;
        numbered = h.numbered;
        issued = h.issued;
      }

  closed-IsKept :
      (caller : Address) (id : ℕ) (c : Campaign)
      → s.campaigns id ≡ some c
      → IsKept s
      → IsKept (closed env caller id s c)
  closed-IsKept caller id c found h =
      let at = h.named id c found in
      record {
        named = λ k c' e. ground (arith, h.named k c');
        unused = λ k l. ground (arith, h.unused k);
        stored = λ k some_id l. ground (arith, h.stored k);
        raised = λ k. ground (arith, h.raised k);
        donations = λ k. ground (arith, h.donations k);
        donors = λ k. ground (arith, h.donors k);
        totals = h.totals;
        numbered = h.numbered;
        issued = h.issued;
      }

module _ {W : Type 0} (tokens : Tokens W) (env : Env) where
  Step-IsKept : (s t : State W) → Step tokens env s t → IsKept s → IsKept t
  Step-IsKept s t stays h = h
  Step-IsKept s t (pauses halted admin e n) h = same-IsKept s (some halted) s.world h
  Step-IsKept s t (creates creator beneficiary token title description goal deadline _ _) h =
      created-IsKept tokens env s creator beneficiary token title description goal deadline h
  Step-IsKept s t (closes caller id c n found may is_open) h =
      closed-IsKept tokens env s caller id c found h
  Step-IsKept s t (donates donor campaign_id amount memo c w admitted _ _ paid) h =
      donated-IsKept donor campaign_id amount memo tokens env s c w admitted.found admitted.positive
        h

module _ {W : Type 0} (tokens : Tokens W) (admin : Address) where
  constructed-IsKept : (w : W) → IsKept (constructor {W = W} admin (blank w)).1
  unfolding constructor received number newcomers
  constructed-IsKept w = record {
    named = λ k c' e. ground arith;
    unused = λ k l. refl;
    stored = λ k some_id l. absurd (omega arith);
    raised = λ k. refl;
    donations = λ k. refl;
    donors = λ k. refl;
    totals = λ k d. refl;
    numbered = λ i r e. ground arith;
    issued = λ i. ground arith;
  }

  pub Reach-IsKept : (t : State W) → Reach tokens admin t → IsKept t
  Reach-IsKept t (deployed w) = constructed-IsKept w
  Reach-IsKept t (invoked {t = s} env e r) =
      Step-IsKept tokens env s (perform tokens env e s) (perform-Step tokens env s e)
        (Reach-IsKept s r)
  Reach-IsKept t (outside {t = s} w r) = same-IsKept s s.paused w (Reach-IsKept s r)
