-- ===== src/Donations/Donating.antt =====
-- `Donations::donate` (contracts/donations/src/lib.rs): how it ends, by the conditions of its checks.
use stellariq_contract.Prelude.{
  ℕ, ◌+◌, ◌^◌, ◌<◌, ◌≡◌, ◌≢◌, inr, refl, subst, subst₂, sym, ap, ◌∙◌, some, [], ◌∷◌, ◌++◌, String,
  ℤ, ◌+ℤ◌, IsI128, arith, put, nat_eq, pair_eq,
}
use stellariq_contract.Soroban.{
  Address, Env, Tokens, Outcome, Contract, bind_cases, ok, err, trap, ◌>>=◌, ◌>>◌, entry_ttl,
  unwrap_or,
}
use stellariq_contract.Donations.Types.{
  DonationError, Campaign, Receipt, donation_made, campaign_key, receipt_key, donor_total_key,
  State, event_schema_version, ttl_threshold, ttl_extend,
}
use stellariq_contract.Donations.Defs.{admit, count_in, issue_receipt, token_transfer, donate}
use stellariq_contract.Donations.Counting.{
  previous, counted, Fits, counted_in, Counted, count_in-Counted,
}
use stellariq_contract.Donations.Admission.{
  IsAdmitted, Of, IsRefused, touched, Admitted, admit-Admitted,
}

module _ {W : Type 0} (tokens : Tokens W) (env : Env) (donor : Address) (campaign_id : ℕ)
    (amount : ℤ) (memo : String) (s : State W) where
  abbrev pub next_receipt : ℕ
  next_receipt = unwrap_or s.receipt_count 0 + 1

  abbrev pub receipt_of : Receipt
  receipt_of = record {
    id = next_receipt;
    campaign_id = campaign_id;
    donor = donor;
    amount = amount;
    memo = memo;
    timestamp = env.timestamp;
    ledger = env.sequence;
  }

  -- The storage after a donation, the other contracts being in state `w`.
  abbrev pub donated : Campaign → W → State W
  donated c w = record s {
    campaigns = put c.id (counted donor campaign_id amount s c) s.campaigns;
    receipts = put next_receipt receipt_of s.receipts;
    donor_totals = put (campaign_id, donor) (previous donor campaign_id s +ℤ amount) s.donor_totals;
    receipt_count = some next_receipt;
    events =
        s.events
        ++ (donation_made campaign_id donor next_receipt amount (c.raised +ℤ amount)
              event_schema_version
            ∷ []);
    extensions =
        (((s.extensions ++ (entry_ttl (campaign_key campaign_id) ttl_threshold ttl_extend ∷ []))
            ++ (entry_ttl (donor_total_key campaign_id donor) ttl_threshold ttl_extend ∷ []))
          ++ (entry_ttl (campaign_key c.id) ttl_threshold ttl_extend ∷ []))
        ++ (entry_ttl (receipt_key next_receipt) ttl_threshold ttl_extend ∷ []);
    world = w;
  }

  abbrev pub Ends : Outcome DonationError ℕ × State W → Type 0
  Ends (ok id, t) =
      (c : Campaign) × IsAdmitted tokens env donor campaign_id amount memo s c
      × Fits donor campaign_id amount s c
      × (next_receipt < 2 ^ 64)
      × (tokens.transfer s.world env.contract c.token donor c.beneficiary amount ≡ some t.world)
      × (id ≡ next_receipt)
      × (t ≡ donated c t.world)
  Ends (err e, t) = IsRefused tokens env donor campaign_id amount memo s e
  Ends (trap, t) = Unit

  abbrev pub receipted : Campaign → State W → State W
  receipted c t = record t {
    receipts = put next_receipt receipt_of t.receipts;
    receipt_count = some next_receipt;
    events =
        t.events
        ++ (donation_made campaign_id donor next_receipt amount c.raised event_schema_version ∷ []);
    extensions =
        t.extensions ++ (entry_ttl (receipt_key next_receipt) ttl_threshold ttl_extend ∷ []);
  }

  abbrev Receipted : Campaign → State W → Outcome DonationError ℕ × State W → Type 0
  Receipted c t (ok id, u) = (next_receipt < 2 ^ 64) × (id ≡ next_receipt) × (u ≡ receipted c t)
  Receipted c t (err e, u) = ⊥
  Receipted c t (trap, u) = Unit

  issue_receipt-Receipted :
      (c : Campaign) (t : State W)
      → t.receipt_count ≡ s.receipt_count
      → Receipted c t (issue_receipt tokens env c donor campaign_id amount memo t)
  unfolding issue_receipt
  issue_receipt-Receipted c t h = ground arith

  transferred : Campaign → Contract (State W) DonationError ℕ
  transferred c = do
    updated ← count_in tokens env c donor campaign_id amount
    issue_receipt tokens env updated donor campaign_id amount memo

  Receipted-Ends :
      (c : Campaign) (w : W)
      → IsAdmitted tokens env donor campaign_id amount memo s c
      → tokens.transfer s.world env.contract c.token donor c.beneficiary amount ≡ some w
      → Fits donor campaign_id amount
          (record (touched tokens env donor campaign_id amount memo s) { world = w })
          c
      → (r : Outcome DonationError ℕ × State W)
      → Receipted
          (counted donor campaign_id amount
            (record (touched tokens env donor campaign_id amount memo s) { world = w })
            c)
          (counted_in donor campaign_id amount
            (record (touched tokens env donor campaign_id amount memo s) { world = w })
            c)
          r
      → Ends r
  Receipted-Ends c w h e fits (ok id, u) v = (
    c,
    h,
    record {
      raised_fits = fits.raised_fits;
      total_fits = fits.total_fits;
      donors_fit = fits.donors_fit;
      donations_fit = fits.donations_fit;
    },
    v.0,
    e ∙ sym (ap (λ x. some x.world) v.2),
    v.1,
    v.2 ∙ sym (ap (λ x. donated c x.world) v.2),
  )
  Receipted-Ends c w h e fits (err x, u) v = absurd v
  Receipted-Ends c w h e fits (trap, u) v = tt

  after_transfer :
      (c : Campaign) (w : W)
      → IsAdmitted tokens env donor campaign_id amount memo s c
      → tokens.transfer s.world env.contract c.token donor c.beneficiary amount ≡ some w
      → Ends (
          transferred c (record (touched tokens env donor campaign_id amount memo s) { world = w }))
  unfolding transferred
  after_transfer c w h e =
      let t0 = record (touched tokens env donor campaign_id amount memo s) { world = w } in
      let issue : Campaign → Contract (State W) DonationError ℕ =
        λ u. issue_receipt tokens env u donor campaign_id amount memo in
      let verdict = count_in-Counted donor campaign_id amount t0 tokens env c in
      bind_cases Ends (count_in tokens env c donor campaign_id amount) issue t0
        (λ u t e'.
          let v = subst (Counted donor campaign_id amount t0 c) e' verdict in
          subst₂ (λ u t. Ends (issue u t)) (sym v.1) (sym v.2)
            (Receipted-Ends c w h e v.0 _ (
              issue_receipt-Receipted (counted donor campaign_id amount t0 c)
                (counted_in donor campaign_id amount t0 c) refl)))
        (λ x t e'.
          let v = subst (Counted donor campaign_id amount t0 c) e' verdict in
          subst (IsRefused tokens env donor campaign_id amount memo s) (sym v.0) (
            inr (
              subst
                (Of tokens env donor campaign_id amount memo s (λ c. ¬ IsI128 (c.raised +ℤ amount)))
                (sym h.found) v.1)))
        (λ t e'. tt)

  module _ (token from to : Address) (t : State W) where
    transfer_ok :
        (x : Unit {0}) (u : State W)
        → token_transfer tokens env token from to amount t ≡ (ok x, u)
        → (tokens.transfer t.world env.contract token from to amount ≡ some u.world)
          × (u ≡ record t { world = u.world })
    transfer_ok x u h = ground arith

    transfer_err :
        (x : DonationError) (u : State W)
        → token_transfer tokens env token from to amount t ≢ (err x, u)
    transfer_err x u = ground arith

  after_admission :
      (c : Campaign)
      → IsAdmitted tokens env donor campaign_id amount memo s c
      → Ends (
          (token_transfer tokens env c.token donor c.beneficiary amount >> transferred c)
            (touched tokens env donor campaign_id amount memo s))
  after_admission c h =
      bind_cases Ends (token_transfer tokens env c.token donor c.beneficiary amount)
        (λ _. transferred c) (touched tokens env donor campaign_id amount memo s)
        (λ a t e.
          let (paid, moved) =
            transfer_ok c.token donor c.beneficiary
              (touched tokens env donor campaign_id amount memo s) a t e in
          subst (λ u. Ends (transferred c u)) (sym moved) (after_transfer c t.world h paid))
        (λ x t e. absurd (
          transfer_err c.token donor c.beneficiary
            (touched tokens env donor campaign_id amount memo s) x t e))
        (λ t e. tt)

  pub donate-Ends : Ends (donate tokens env donor campaign_id amount memo s)
  unfolding donate transferred
  donate-Ends =
      let verdict = admit-Admitted tokens env donor campaign_id amount memo s in
      bind_cases Ends (admit tokens env donor campaign_id amount memo)
        (λ c. token_transfer tokens env c.token donor c.beneficiary amount >> transferred c) s
        (λ c t e.
          let v = subst (Admitted tokens env donor campaign_id amount memo s) e verdict in
          subst
            (λ u.
              Ends
                ((token_transfer tokens env c.token donor c.beneficiary amount >> transferred c) u))
            (sym v.0) (after_admission c v.1))
        (λ x t e. subst (Admitted tokens env donor campaign_id amount memo s) e verdict) (λ t e. tt)
