-- ===== src/Donations/Books.antt =====
-- The books of the donations contract (contracts/donations/src/lib.rs): in every storage that it can
-- reach, the sums and counters agree with the receipts.
use stellariq_contract.Prelude.{
  ℕ, ◌+◌, ◌≤◌, ◌<◌, ◌<ℤ◌, ◌≡◌, ◌≢◌, ◌↔◌, Option, none, some, String, ℤ, pos, ◌+ℤ◌, nat_eq, arith,
  int_laws,
}
use stellariq_contract.Soroban.{Address, Env, Tokens, unwrap_or}
use stellariq_contract.Donations.Types.{Campaign, Receipt, State}
use stellariq_contract.Donations.Donating.{donated, receipt_of}
use stellariq_contract.Donations.Donors.{newcomers, newcomers-next, received-Agrees}
use stellariq_contract.Donations.Totals.{
  received, number, for_campaign, by_donor, received-next, number-next,
}

abbrev pub raised_of : Option Campaign → ℤ
raised_of none = pos 0
raised_of (some c) = c.raised

abbrev pub donations_of : Option Campaign → ℕ
donations_of none = 0
donations_of (some c) = c.donation_count

abbrev pub donors_of : Option Campaign → ℕ
donors_of none = 0
donors_of (some c) = c.donor_count

module _ {W : Type 0} (s : State W) where
  abbrev pub last_receipt : ℕ
  last_receipt = unwrap_or s.receipt_count 0

  abbrev pub last_campaign : ℕ
  last_campaign = unwrap_or s.campaign_count 0

  pub record IsKept : Type 0 where
    -- Campaigns are stored under their ids, which are those from 1 to the count.
    pub named : (k : ℕ) (c : Campaign) → s.campaigns k ≡ some c → c.id ≡ k
    pub unused : (k : ℕ) → last_campaign < k → s.campaigns k ≡ none
    pub stored : (k : ℕ) → 0 < k → k ≤ last_campaign → s.campaigns k ≢ none
    -- The totals are those of the receipts, and a donor counts once for a campaign.
    pub raised :
        (k : ℕ) → raised_of (s.campaigns k) ≡ received (for_campaign k) s.receipts last_receipt
    pub donations :
        (k : ℕ) → donations_of (s.campaigns k) ≡ number (for_campaign k) s.receipts last_receipt
    pub donors : (k : ℕ) → donors_of (s.campaigns k) ≡ newcomers k s.receipts last_receipt
    pub totals :
        (k : ℕ) (d : Address)
        → unwrap_or (s.donor_totals (k, d)) (pos 0)
          ≡ received (by_donor k d) s.receipts last_receipt
    -- Receipts are stored under their ids, which are those from 1 to the count.
    pub numbered : (i : ℕ) (r : Receipt) → s.receipts i ≡ some r → (r.id ≡ i) × (pos 0 <ℤ r.amount)
    pub issued : (i : ℕ) → (s.receipts i ≢ none) ↔ ((0 < i) × (i ≤ last_receipt))

plus_zero : (a : ℤ) → a +ℤ pos 0 ≡ a
plus_zero a = grind int_laws

module _ {W : Type 0} (donor : Address) (campaign_id : ℕ) (amount : ℤ) (memo : String)
    (tokens : Tokens W) (env : Env) (s : State W) (c : Campaign) (w : W) where
  pub donated-IsKept :
      s.campaigns campaign_id ≡ some c
      → pos 0 <ℤ amount
      → IsKept s
      → IsKept (donated tokens env donor campaign_id amount memo s c w)
  donated-IsKept found positive h =
      let at = h.named campaign_id c found in
      let id = unwrap_or s.receipt_count 0 + 1 in
      let r = receipt_of tokens env donor campaign_id amount memo s in
      record {
        named = λ k c' e. ground (arith, h.named k c');
        unused = λ k l. ground (arith, h.unused k);
        stored = λ k some_id l. ground (arith, h.stored k);
        raised = λ k.
            let next = received-next (for_campaign k) r s.receipts (last_receipt s) in
            rw next (
              ground (
                arith,
                h.raised k,
                plus_zero (received (for_campaign k) s.receipts (last_receipt s)),
              ));
        donations = λ k.
            let next = number-next (for_campaign k) r s.receipts (last_receipt s) in
            rw next (ground (arith, h.donations k));
        donors = λ k.
            let next = newcomers-next k r s.receipts (last_receipt s) in
            let first =
              received-Agrees (by_donor campaign_id donor) s.receipts
                (λ i q e. (h.numbered i q e).1) (last_receipt s) in
            rw next (ground (arith, h.donors k, h.totals campaign_id donor));
        totals = λ k d.
            let next = received-next (by_donor k d) r s.receipts (last_receipt s) in
            rw next (
              ground (
                arith,
                h.totals k d,
                plus_zero (received (by_donor k d) s.receipts (last_receipt s)),
              ));
        numbered = λ i r e. ground (arith, h.numbered i r);
        issued = λ i. ground (arith, h.issued i);
      }
