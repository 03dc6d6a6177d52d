-- ===== src/Donations/Steps.antt =====
-- What one invocation of the donations contract (contracts/donations/src/lib.rs) does to its storage,
-- as a step relation: each way in which it can change anything, with what it then has checked.
use stellariq_contract.Prelude.{
  ℕ, ◌<◌, ◌^◌, ◌≡◌, ◌⊎◌, inl, inr, refl, sym, subst, true, Bool, Option, none, some, String, ℤ,
  arith,
}
use stellariq_contract.Soroban.{
  Address, Env, Tokens, Outcome, Contract, pure, invoke, ◌>>◌, ok, err, trap,
}
use stellariq_contract.Donations.Types.{DonationError, Campaign, State}
use stellariq_contract.Donations.Defs.{set_paused, create_campaign, close_campaign, donate}
use stellariq_contract.Donations.Campaigns.{
  IsAcceptable, next_campaign, created, CreateEnds, create_campaign-CreateEnds, closed, Closable,
  CloseEnds, close_campaign-CloseEnds,
}
use stellariq_contract.Donations.Admission.{IsAdmitted}
use stellariq_contract.Donations.Counting.{Fits}
use stellariq_contract.Donations.Donating.{next_receipt, donated, Ends, donate-Ends}
use stellariq_contract.Donations.Entries.{
  Entry, set_paused_entry, create_entry, close_entry, donate_entry, perform,
}

pub data Step {W : Type 0} (tokens : Tokens W) (env : Env) (s : State W) : State W → Type 0 where
  stays : Step tokens env s s
  pauses :
      (halted : Bool) (admin : Address)
      → s.admin ≡ some admin
      → env.signed admin ≡ true
      → Step tokens env s (record s { paused = some halted })
  creates :
      (creator beneficiary token : Address) (title description : String) (goal : ℤ) (deadline : ℕ)
      → IsAcceptable env creator beneficiary token title description goal deadline s
      → next_campaign env creator beneficiary token title description goal deadline s < 2 ^ 32
      → Step tokens env s (created env creator beneficiary token title description goal deadline s)
  closes :
      (caller : Address) (id : ℕ) (c : Campaign)
      → env.signed caller ≡ true
      → s.campaigns id ≡ some c
      → (caller ≡ c.creator) ⊎ (s.admin ≡ some caller)
      → c.is_open ≡ true
      → Step tokens env s (closed env caller id s c)
  donates :
      (donor : Address) (campaign_id : ℕ) (amount : ℤ) (memo : String) (c : Campaign) (w : W)
      → IsAdmitted tokens env donor campaign_id amount memo s c
      → Fits donor campaign_id amount s c
      → next_receipt tokens env donor campaign_id amount memo s < 2 ^ 64
      → tokens.transfer s.world env.contract c.token donor c.beneficiary amount ≡ some w
      → Step tokens env s (donated tokens env donor campaign_id amount memo s c w)

module _ {W : Type 0} (tokens : Tokens W) (env : Env) (s : State W) where
  abbrev pub drop_id :
      Outcome DonationError ℕ × State W → Contract (State W) DonationError (Unit {0})
  drop_id r = (λ _. r) >> pure tt

  create-Step :
      (creator beneficiary token : Address) (title description : String) (goal : ℤ) (deadline : ℕ)
      (r : Outcome DonationError ℕ × State W)
      → CreateEnds env creator beneficiary token title description goal deadline s r
      → Step tokens env s (invoke (drop_id r) s).1
  create-Step creator beneficiary token title description goal deadline (ok id, t) (h, fits, _, e) =
      subst (Step tokens env s) (sym e)
        (creates creator beneficiary token title description goal deadline h fits)
  create-Step creator beneficiary token title description goal deadline (err x, t) v = stays
  create-Step creator beneficiary token title description goal deadline (trap, t) v = stays

  Closable-Step :
      (caller : Address) (id : ℕ) (o : Option Campaign) (t : State W)
      → env.signed caller ≡ true
      → s.campaigns id ≡ o
      → Closable env caller id s o t
      → Step tokens env s t
  Closable-Step caller id none t n found v = absurd v
  Closable-Step caller id (some c) t n found (may, is_open, e) =
      subst (Step tokens env s) (sym e) (closes caller id c n found may is_open)

  close-Step :
      (caller : Address) (id : ℕ) (r : Outcome DonationError (Unit {0}) × State W)
      → CloseEnds env caller id s r
      → Step tokens env s (invoke (λ _. r) s).1
  close-Step caller id (ok _, t) (n, v) = Closable-Step caller id (s.campaigns id) t n refl v
  close-Step caller id (err x, t) v = stays
  close-Step caller id (trap, t) v = stays

  donate-Step :
      (donor : Address) (campaign_id : ℕ) (amount : ℤ) (memo : String)
      (r : Outcome DonationError ℕ × State W)
      → Ends tokens env donor campaign_id amount memo s r
      → Step tokens env s (invoke (drop_id r) s).1
  donate-Step donor campaign_id amount memo (ok id, t) (c, admitted, fits, left, paid, _, e) =
      subst (Step tokens env s) (sym e)
        (donates donor campaign_id amount memo c t.world admitted fits left paid)
  donate-Step donor campaign_id amount memo (err x, t) v = stays
  donate-Step donor campaign_id amount memo (trap, t) v = stays

  abbrev Pauses : Bool → Option Address → State W → Type 0
  Pauses halted none t = t ≡ s
  Pauses halted (some admin) t =
      (t ≡ s) ⊎ ((env.signed admin ≡ true) × (t ≡ record s { paused = some halted }))

  set_paused-Pauses : (halted : Bool) → Pauses halted s.admin (invoke (set_paused env halted) s).1
  unfolding set_paused
  set_paused-Pauses halted = ground arith

  pause-Step :
      (halted : Bool) (o : Option Address) (t : State W)
      → s.admin ≡ o
      → Pauses halted o t
      → Step tokens env s t
  pause-Step halted none t e same = subst (Step tokens env s) (sym same) stays
  pause-Step halted (some admin) t e (inl same) = subst (Step tokens env s) (sym same) stays
  pause-Step halted (some admin) t e (inr (n, paused)) =
      subst (Step tokens env s) (sym paused) (pauses halted admin e n)

  -- Every invocation is one of these steps.
  pub perform-Step : (e : Entry) → Step tokens env s (perform tokens env e s)
  unfolding perform
  perform-Step (set_paused_entry halted) =
      pause-Step halted s.admin (invoke (set_paused env halted) s).1 refl (set_paused-Pauses halted)
  perform-Step (create_entry creator beneficiary token title description goal deadline) =
      create-Step creator beneficiary token title description goal deadline
        (create_campaign env creator beneficiary token title description goal deadline s)
        (create_campaign-CreateEnds env creator beneficiary token title description goal deadline s)
  perform-Step (close_entry caller id) =
      close-Step caller id (close_campaign env caller id s)
        (close_campaign-CloseEnds env caller id s)
  perform-Step (donate_entry donor campaign_id amount memo) =
      donate-Step donor campaign_id amount memo (donate tokens env donor campaign_id amount memo s)
        (donate-Ends tokens env donor campaign_id amount memo s)
