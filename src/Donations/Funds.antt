-- ===== src/Donations/Funds.antt =====
-- Where the money of a donation goes (contracts/donations/src/lib.rs, `Donations::donate`).
use stellariq_contract.Prelude.{ℕ, ◌≡◌, ◌≢◌, some, ◌&&◌, ◌==◌, String, ℤ, ◌+ℤ◌, ◌-ℤ◌}
use stellariq_contract.Soroban.{Address, Env, Tokens, ok}
use stellariq_contract.Soroban.Sep41.{when, IsLedger}
use stellariq_contract.Donations.Types.{Campaign, State}
use stellariq_contract.Donations.Defs.{donate}
use stellariq_contract.Donations.Results.{donate_records}

module _ {W : Type 0} (tokens : Tokens W) (env : Env) (funds : W → Address → Address → ℤ)
    (ledger : IsLedger tokens funds) (donor : Address) (campaign_id : ℕ) (amount : ℤ)
    (memo : String) (s : State W) where
  open ledger use {transfer_funds}

  -- Where the tokens keep to SEP-41, a donation that returns has moved the amount of the campaign's
  -- token from the donor to the beneficiary, who are not the same, and has changed no other balance.
  pub donate_moves :
      (id : ℕ) (t : State W)
      → donate tokens env donor campaign_id amount memo s ≡ (ok id, t)
      → (c : Campaign) × (s.campaigns campaign_id ≡ some c)
        × (donor ≢ c.beneficiary)
        × ((u h : Address)
            → funds t.world u h
              ≡ funds s.world u h
                +ℤ when (u == c.token && h == c.beneficiary) amount
                -ℤ when (u == c.token && h == donor) amount)
  donate_moves id t done =
      let (c, admitted, _, _, paid, _, _) =
        donate_records tokens env donor campaign_id amount memo s id t done in
      (
        c,
        admitted.found,
        admitted.another,
        λ u h.
            transfer_funds s.world env.contract c.token donor c.beneficiary amount t.world u h paid,
      )
