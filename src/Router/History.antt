-- ===== src/Router/History.antt =====
-- What the event log of the router looks like after any sequence of invocations
-- (contracts/router/src/lib.rs, and the join rule of docs/events.md).
use stellariq_contract.Prelude.{
  ℕ, suc, ◌+◌, ◌≡◌, ◌≢◌, ◌⊎◌, inl, inr, refl, sym, subst, subst₂, none, List, [], ◌∷◌, ◌++◌, ℤ, ◌<◌,
  ◌^◌, arith,
}
use stellariq_contract.Soroban.{
  Address, Hash, Env, Tokens, Outcome, ok, err, trap, Contract, pure, invoke, unwrap_or, ◌>>◌,
}
use stellariq_contract.Interfaces.{
  RouterError, SwapStep, Adapters, Event, initialized, admin_changed, pause_changed, protocol_set,
  protocol_removed, upgraded, event_schema_version,
}
use stellariq_contract.Router.Storage.{State}
use stellariq_contract.Router.Admin.{
  initialize, set_admin, set_paused, set_protocol, remove_protocol, upgrade,
}
use stellariq_contract.Router.Swap.{swap}
use stellariq_contract.Router.Spec.{final_amount}
use stellariq_contract.Router.Settlement.{next_id, summary}
use stellariq_contract.Router.Outcomes.{Ends, swap-Ends}
use stellariq_contract.Router.Entries.{
  Entry, initialize_entry, set_admin_entry, set_paused_entry, set_protocol_entry,
  remove_protocol_entry, upgrade_entry, swap_entry, perform, Reach, here, invoked, outside,
  deployed,
}
use stellariq_contract.Router.Log.{
  IsLifecycle, swap_block, Log, swap_ids, one_to, Log-swap_ids, empty_log, lifecycle, swapped,
}

-- The log agrees with the nonce, and nothing is counted before `initialize`.
pub record IsLogged {W : Type 0} (s : State W) : Type 0 where
  pub log : Log (unwrap_or s.nonce 0) s.events
  pub fresh : s.admin ≡ none → unwrap_or s.nonce 0 ≡ 0
  pub fits : unwrap_or s.nonce 0 < 2 ^ 64

-- The life cycle event that an entry point publishes.
abbrev pub event_of : {W : Type 0} → State W → Entry → Event
event_of s (initialize_entry admin) = initialized admin event_schema_version
event_of s (set_admin_entry new_admin) =
    admin_changed (unwrap_or s.admin 0) new_admin event_schema_version
event_of s (set_paused_entry halted) =
    pause_changed (unwrap_or s.admin 0) halted event_schema_version
event_of s (set_protocol_entry protocol adapter) =
    protocol_set protocol adapter event_schema_version
event_of s (remove_protocol_entry protocol) = protocol_removed protocol event_schema_version
event_of s (upgrade_entry wasm_hash) = upgraded (unwrap_or s.admin 0) wasm_hash event_schema_version
event_of s (swap_entry _ _ _ _ _ _ _) = initialized 0 0

-- Nothing has happened, or one life cycle event has been published.
abbrev Noted : {W : Type 0} → State W → Entry → State W → Type 0
Noted s e t =
    (t ≡ s)
    ⊎ ((t.events ≡ s.events ++ (event_of s e ∷ []))
        × (unwrap_or t.nonce 0 ≡ unwrap_or s.nonce 0)
        × (t.admin ≢ none))

Noted-IsLogged :
    {W : Type 0} (s : State W) (e : Entry) (t : State W)
    → IsLifecycle (event_of s e)
    → Noted s e t
    → IsLogged s
    → IsLogged t
Noted-IsLogged s e t l (inl same) h = subst IsLogged (sym same) h
Noted-IsLogged s e t l (inr (logged, kept, set)) h = record {
  log = subst₂ Log (sym kept) (sym logged) (lifecycle (event_of s e) l h.log);
  fresh = λ unset. absurd (set unset);
  fits = ground (arith, h.fits, kept);
}

module _ {W : Type 0} (tokens : Tokens W) (adapters : Adapters W) (env : Env) where
  abbrev pub drop_amount :
      Outcome RouterError ℤ × State W → Contract (State W) RouterError (Unit {0})
  drop_amount r = (λ _. r) >> pure tt

  -- A swap that returns adds one block; any other changes nothing.
  swap-IsLogged :
      (trader token_in token_out : Address) (amount_in amount_out_min : ℤ) (deadline : ℕ)
      (path : List SwapStep) (s : State W) (r : Outcome RouterError ℤ × State W)
      → Ends tokens adapters env trader token_in token_out amount_in amount_out_min deadline path s
          r
      → IsLogged s
      → IsLogged (invoke (drop_amount r) s).1
  swap-IsLogged trader token_in token_out amount_in amount_out_min deadline path s (ok out, t)
        (terms, route, (amounts, filled, _, _, fits, e)) h =
      let x =
        summary tokens adapters env trader token_in token_out amount_in amount_out_min path
          (next_id s) (final_amount amount_in amounts) in
      let n = unwrap_or s.nonce 0 in
      let count : suc n ≡ n + 1 = omega arith in
      subst IsLogged (sym e) (record {
        log =
            subst (λ k. Log k (s.events ++ swap_block x path amounts)) count
              (swapped x path amounts
                (record {
                  numbered = sym count;
                  routed = route.route;
                  filled = filled;
                  yielded = refl;
                  listed = refl;
                })
                h.log);
        fresh = λ unset. absurd (terms.initialized unset);
        fits = fits;
      })
  swap-IsLogged trader token_in token_out amount_in amount_out_min deadline path s (err x, t) k h =
      h
  swap-IsLogged trader token_in token_out amount_in amount_out_min deadline path s (trap, t) k h = h

  perform-IsLogged :
      (e : Entry) (s : State W) → IsLogged s → IsLogged (perform tokens adapters env e s)
  unfolding perform initialize set_admin set_paused set_protocol remove_protocol upgrade
  perform-IsLogged (initialize_entry a) s h =
      Noted-IsLogged s (initialize_entry a) _ tt (ground arith) h
  perform-IsLogged (set_admin_entry a) s h =
      Noted-IsLogged s (set_admin_entry a) _ tt (ground arith) h
  perform-IsLogged (set_paused_entry b) s h =
      Noted-IsLogged s (set_paused_entry b) _ tt (ground arith) h
  perform-IsLogged (set_protocol_entry p a) s h =
      Noted-IsLogged s (set_protocol_entry p a) _ tt (ground arith) h
  perform-IsLogged (remove_protocol_entry p) s h =
      Noted-IsLogged s (remove_protocol_entry p) _ tt (ground arith) h
  perform-IsLogged (upgrade_entry c) s h = Noted-IsLogged s (upgrade_entry c) _ tt (ground arith) h
  perform-IsLogged (swap_entry trader token_in token_out x y d path) s h =
      swap-IsLogged trader token_in token_out x y d path s
        (swap tokens adapters env trader token_in token_out x y d path s)
        (swap-Ends tokens adapters env trader token_in token_out x y d path s) h

module _ {W : Type 0} (tokens : Tokens W) (adapters : Adapters W) where
  Reach-IsLogged : {s t : State W} → IsLogged s → Reach tokens adapters s t → IsLogged t
  Reach-IsLogged h here = h
  Reach-IsLogged h (invoked {t = t} env e own r) =
      perform-IsLogged tokens adapters env e t (Reach-IsLogged h r)
  Reach-IsLogged h (outside w r) =
      let k = Reach-IsLogged h r in record { log = k.log; fresh = k.fresh; fits = k.fits }

  deployed-IsLogged : (code : Hash) (w : W) → IsLogged (deployed code w)
  deployed-IsLogged code w = record { log = empty_log; fresh = λ _. refl; fits = omega arith }

  -- After any invocations of a deployed router that run the code it was deployed with, an `upgrade` as the
  -- last of them included, by anybody and with any tokens and adapters, its event
  -- log consists of life cycle events and whole swap blocks. A block is the hop records of a route in
  -- order, chained by their amounts, each amount positive and at least its hop's minimum, and then one
  -- summary with the same execution id, trader and input, the last amount and the protocols. The
  -- blocks are numbered from 1 to the nonce.
  pub reachable-Log :
      (code : Hash) (w : W) (t : State W)
      → Reach tokens adapters (deployed code w) t
      → Log (unwrap_or t.nonce 0) t.events
  reachable-Log code w t r = (Reach-IsLogged (deployed-IsLogged code w) r).log

  -- So, after any invocations that run the code of the deployment, the execution ids of the summaries are
  -- 1, 2, … up to the nonce, in this order: none is used twice.
  -- And the nonce is always a `u64`.
  pub reachable_ids :
      (code : Hash) (w : W) (t : State W)
      → Reach tokens adapters (deployed code w) t
      → (swap_ids t.events ≡ one_to (unwrap_or t.nonce 0)) × (unwrap_or t.nonce 0 < 2 ^ 64)
  reachable_ids code w t r =
      (Log-swap_ids (reachable-Log code w t r), (Reach-IsLogged (deployed-IsLogged code w) r).fits)
