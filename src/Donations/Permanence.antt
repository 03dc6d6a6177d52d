-- ===== src/Donations/Permanence.antt =====
-- What no invocation of the donations contract (contracts/donations/src/lib.rs) takes back: receipts,
-- the end of a campaign, and the admin.
use stellariq_contract.Prelude.{
  ℕ, ◌+◌, ◌≡◌, ◌≤◌, ◌≤ℤ◌, ◌<ℤ◌, ◌+ℤ◌, ℤ, pos, int_laws, Option, none, false, some, refl, arith,
}
use stellariq_contract.Soroban.{Address, Env, Tokens, unwrap_or}
use stellariq_contract.Donations.Types.{Campaign, Receipt, State}
use stellariq_contract.Donations.Steps.{Step, stays, pauses, creates, closes, donates, perform-Step}
use stellariq_contract.Donations.Books.{IsKept}
use stellariq_contract.Donations.Reachable.{Reach-IsKept}
use stellariq_contract.Donations.Entries.{Entry, perform, Reach}

-- The campaign is still there, with its terms, and has not lost a donation.
abbrev pub Continues : Campaign → Option Campaign → Type 0
Continues c none = ⊥
Continues c (some d) =
    (d.id ≡ c.id)
    × (d.creator ≡ c.creator)
    × (d.beneficiary ≡ c.beneficiary)
    × (d.token ≡ c.token)
    × (d.title ≡ c.title)
    × (d.description ≡ c.description)
    × (d.goal ≡ c.goal)
    × (d.deadline ≡ c.deadline)
    × (d.created_at ≡ c.created_at)
    × (c.raised ≤ℤ d.raised)
    × (c.donation_count ≤ d.donation_count)
    × (c.donor_count ≤ d.donor_count)

Continues-same : (c : Campaign) (o : Option Campaign) → o ≡ some c → Continues c o
Continues-same c o e = ground arith

grows : (x y : ℤ) → pos 0 <ℤ y → x ≤ℤ x +ℤ y
grows x y h = omega int_laws

module _ {W : Type 0} (env : Env) where
  pub record IsKeptBy (s t : State W) : Type 0 where
    pub receipts_stay : (i : ℕ) (r : Receipt) → s.receipts i ≡ some r → t.receipts i ≡ some r
    pub campaigns_stay :
        (id : ℕ) (c : Campaign)
        → s.campaigns id ≡ some c
        → c.is_open ≡ false
        → t.campaigns id ≡ some c
    pub campaigns_continue :
        (id : ℕ) (c : Campaign) → s.campaigns id ≡ some c → Continues c (t.campaigns id)
    pub admin_stays : t.admin ≡ s.admin
    pub pause_stays :
        (admin : Address) → s.admin ≡ some admin → env.signed admin ≡ false → t.paused ≡ s.paused

  unchanged : (s : State W) → IsKeptBy s s
  unchanged s = record {
    receipts_stay = λ i r e. e;
    campaigns_stay = λ id c e h. e;
    campaigns_continue = λ id c e. Continues-same c (s.campaigns id) e;
    admin_stays = refl;
    pause_stays = λ a e n. refl;
  }

module _ {W : Type 0} (tokens : Tokens W) (env : Env) where
  Step-IsKeptBy : (s t : State W) → Step tokens env s t → IsKept s → IsKeptBy env s t
  Step-IsKeptBy s t stays h = unchanged env s
  Step-IsKeptBy s t (pauses halted admin set n) h = record {
    receipts_stay = λ i r e. e;
    campaigns_stay = λ id c e shut. e;
    campaigns_continue = λ id c e. Continues-same c (s.campaigns id) e;
    admin_stays = refl;
    pause_stays = λ a e unsigned. ground arith;
  }
  Step-IsKeptBy s t (creates creator beneficiary token title description goal deadline _ _) h =
      let free = h.unused (unwrap_or s.campaign_count 0 + 1) (omega arith) in
      record {
        receipts_stay = λ i r e. e;
        campaigns_stay = λ id c e shut. ground arith;
        campaigns_continue = λ id c e. ground arith;
        admin_stays = refl;
        pause_stays = λ a e n. refl;
      }
  Step-IsKeptBy s t (closes caller id c n found may is_open) h =
      let at = h.named id c found in
      record {
        receipts_stay = λ i r e. e;
        campaigns_stay = λ k d e shut. ground arith;
        campaigns_continue = λ k d e. ground arith;
        admin_stays = refl;
        pause_stays = λ a e n. refl;
      }
  Step-IsKeptBy s t (donates donor campaign_id amount memo c w admitted _ _ paid) h =
      let found = admitted.found in
      let is_open = admitted.is_open in
      let at = h.named campaign_id c found in
      let more = grows c.raised amount admitted.positive in
      record {
        receipts_stay = λ i r e. ground (arith, h.issued i);
        campaigns_stay = λ k d e shut. ground arith;
        campaigns_continue = λ k d e. ground arith;
        admin_stays = refl;
        pause_stays = λ a e n. refl;
      }

-- From every reachable storage, no invocation, whoever makes it, changes a receipt that was issued or
-- a campaign that was closed, changes the terms of a campaign or lowers its sum or its counts, or
-- replaces the admin; and without the admin's signature it leaves the
-- pause flag as it is.
pub perform_keeps :
    {W : Type 0} (tokens : Tokens W) (admin : Address) (env : Env) (e : Entry) (s : State W)
    → Reach tokens admin s
    → IsKeptBy env s (perform tokens env e s)
perform_keeps tokens admin env e s r =
    Step-IsKeptBy tokens env s (perform tokens env e s) (perform-Step tokens env s e)
      (Reach-IsKept tokens admin s r)
