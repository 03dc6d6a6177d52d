-- ===== src/Router/Lifetime.antt =====
-- The router's own funds over its whole life (contracts/router/src/lib.rs): any invocations of its entry
-- points, and what other contracts do in between.
use stellariq_contract.Prelude.{
  ℕ, ◌≡◌, ◌≢◌, refl, sym, ◌∙◌, subst, true, false, List, ℤ, arith, string_eq, eq_iff,
}
use stellariq_contract.Soroban.{Address, Env, Tokens, Outcome, ok, err, trap, invoke}
use stellariq_contract.Soroban.Sep41.{IsLedger}
use stellariq_contract.Interfaces.{RouterError, SwapStep, Adapters}
use stellariq_contract.Router.Storage.{State}
use stellariq_contract.Router.Admin.{
  initialize, set_admin, set_paused, set_protocol, remove_protocol, upgrade,
}
use stellariq_contract.Router.Swap.{swap}
use stellariq_contract.Router.Entries.{
  Entry, initialize_entry, set_admin_entry, set_paused_entry, set_protocol_entry,
  remove_protocol_entry, upgrade_entry, swap_entry, call, perform,
}
use stellariq_contract.Router.History.{drop_amount}
use stellariq_contract.Router.Funds.{IsConfined}
use stellariq_contract.Router.Custody.{IsApart}
use stellariq_contract.Router.Outcomes.{swap_settles}
use stellariq_contract.Router.Safety.{swap_keeps_custody}

module _ {W : Type 0} (tokens : Tokens W) (adapters : Adapters W)
    (funds : W → Address → Address → ℤ) (router : Address) where
  -- The admin does not register the router itself as an adapter.
  abbrev pub IsProper : Entry → Type 0
  IsProper (set_protocol_entry protocol adapter) = router ≢ adapter
  IsProper _ = Unit

  -- The storages that the router can have after `s`, while it runs the code of `s`. It signs no call of its own, and other contracts
  -- change its balances in no other way than by its own calls.
  pub data Life (s : State W) : State W → Type 0 where
    begun : Life s s
    invoked :
        {t : State W} (env : Env) (e : Entry)
        → env.contract ≡ router
        → env.signed router ≡ false
        → IsProper e
        → t.code ≡ s.code
        → Life s t
        → Life s (perform tokens adapters env e t)
    outside :
        {t : State W} (w : W)
        → ((u : Address) → funds w u router ≡ funds t.world u router)
        → Life s t
        → Life s (record t { world = w })

  -- No registered adapter is the router, and its balances are those of `s`.
  pub record IsKept (s t : State W) : Type 0 where
    pub apart : IsApart router t
    pub same : (u : Address) → funds s.world u router ≡ funds t.world u router

  IsKept-start : (s : State W) → IsApart router s → IsKept s s
  IsKept-start s apart = record { apart = apart; same = λ u. refl }

  module _ (ledger : IsLedger tokens funds) (confined : IsConfined adapters funds true router)
      (env : Env) (at : env.contract ≡ router) (silent : env.signed router ≡ false) where
    swap-IsKept :
        (trader token_in token_out : Address) (amount_in amount_out_min : ℤ) (deadline : ℕ)
        (path : List SwapStep) (s : State W) (r : Outcome RouterError ℤ × State W)
        → IsApart router s
        → swap tokens adapters env trader token_in token_out amount_in amount_out_min deadline path
            s
          ≡ r
        → IsKept s (invoke (drop_amount tokens adapters env r) s).1
    swap-IsKept trader token_in token_out amount_in amount_out_min deadline path s (ok out, t) apart
          done =
        let (terms, _, (amounts, _, _, _, _, recorded)) =
          swap_settles tokens adapters env trader token_in token_out amount_in amount_out_min
            deadline path s out t done in
        let custody : (u : Address) → funds s.world u router ≡ funds t.world u router =
          subst (λ z. (u : Address) → funds s.world u z ≡ funds t.world u z) at
            (swap_keeps_custody tokens adapters env funds ledger true trader token_in token_out
              amount_in amount_out_min deadline path s t out done
              (λ e. cc (e, at, silent, terms.authorized))
              (subst (λ z. IsConfined adapters funds true z) (sym at) confined)
              (subst (λ z. IsApart z s) (sym at) apart)) in
        record { apart = λ p a h. ground (arith, apart p a, recorded); same = λ u. custody u }
    swap-IsKept trader token_in token_out amount_in amount_out_min deadline path s (err e, t) apart
          done =
        IsKept-start s apart
    swap-IsKept trader token_in token_out amount_in amount_out_min deadline path s (trap, t) apart
          done =
        IsKept-start s apart

    pub perform-IsKept :
        (e : Entry) (s : State W)
        → IsProper e
        → IsApart router s
        → IsKept s (perform tokens adapters env e s)
    unfolding perform call initialize set_admin set_paused set_protocol remove_protocol upgrade
    perform-IsKept (initialize_entry a) s proper apart = record {
      apart = λ p b. ground (arith, apart p b);
      same = λ u. ground arith;
    }
    perform-IsKept (set_admin_entry a) s proper apart = record {
      apart = λ p b. ground (arith, apart p b);
      same = λ u. ground arith;
    }
    perform-IsKept (set_paused_entry halted) s proper apart = record {
      apart = λ p b. ground (arith, apart p b);
      same = λ u. ground arith;
    }
    perform-IsKept (set_protocol_entry q a) s proper apart = record {
      apart = λ p b. ground (arith, apart p b, eq_iff q p);
      same = λ u. ground arith;
    }
    perform-IsKept (remove_protocol_entry q) s proper apart = record {
      apart = λ p b. ground (arith, apart p b, eq_iff q p);
      same = λ u. ground arith;
    }
    perform-IsKept (upgrade_entry c) s proper apart = record {
      apart = λ p b. ground (arith, apart p b);
      same = λ u. ground arith;
    }
    perform-IsKept (swap_entry trader token_in token_out x y d path) s proper apart =
        swap-IsKept trader token_in token_out x y d path s
          (swap tokens adapters env trader token_in token_out x y d path s) apart refl

  -- Where the tokens keep to SEP-41, and a call of an adapter changes the router's balances only by the
  -- output that it delivers to the router: whatever invocations the router gets, by anybody and at any time, while it
  -- runs the code that it starts with (an `upgrade` can only be the last), with anything that others do in between as long as it leaves the router's balances alone, every balance of
  -- the router stays what it was. The router signs nothing, and is not registered as an adapter.
  pub lifetime_custody :
      IsLedger tokens funds
      → IsConfined adapters funds true router
      → {s t : State W} → IsApart router s
      → Life s t
      → (u : Address) → funds s.world u router ≡ funds t.world u router
  lifetime_custody ledger confined {s} apart life = (kept life).same
    where
      kept : {t : State W} → Life s t → IsKept s t
      kept begun = IsKept-start s apart
      kept (invoked {t} env e at silent proper own r) =
          let before = kept r in
          let step = perform-IsKept ledger confined env at silent e t proper before.apart in
          record { apart = step.apart; same = λ u. before.same u ∙ step.same u }
      kept (outside {t} w same r) =
          let before = kept r in
          record { apart = before.apart; same = λ u. before.same u ∙ sym (same u) }
