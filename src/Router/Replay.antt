-- ===== src/Router/Replay.antt =====
-- The events as a full record of the router's state (contracts/router/src/lib.rs): an indexer that
-- replays them, as docs/events.md has it do, knows everything that governs the next call.
use stellariq_contract.Prelude.{
  ℕ, ◌+◌, ◌≡◌, ◌⊎◌, inl, inr, refl, sym, subst, ap, ◌∙◌, some, List, [], ◌∷◌, ◌++◌, ℤ, string_eq,
  arith, append-nil, length, ◌≤◌,
}
use stellariq_contract.Soroban.{Address, Hash, Env, Tokens, Outcome, ok, err, trap, invoke}
use stellariq_contract.Interfaces.{
  max_hops, RouterError, SwapStep, SwapExecuted, Adapters, Event, swap_executed,
}
use stellariq_contract.Router.Storage.{State}
use stellariq_contract.Router.Admin.{
  initialize, set_admin, set_paused, set_protocol, remove_protocol, upgrade,
}
use stellariq_contract.Router.Swap.{swap}
use stellariq_contract.Router.Spec.{final_amount, hop_records}
use stellariq_contract.Router.Settlement.{next_id, summary}
use stellariq_contract.Router.Outcomes.{Ends, swap-Ends}
use stellariq_contract.Router.History.{event_of, drop_amount}
use stellariq_contract.Router.Entries.{
  Entry, initialize_entry, set_admin_entry, set_paused_entry, set_protocol_entry,
  remove_protocol_entry, upgrade_entry, swap_entry, perform, Reach, here, invoked, outside,
  deployed,
}
use stellariq_contract.Router.Observer.{
  View, view_of, observe, replay, replay-append, replay-hop_records, length-hop_records,
  block_bounded,
}

-- New events, at most one for each of the hops and one more, tell the whole change.
abbrev pub Told : {W : Type 0} → State W → State W → Type 0
Told s t =
    (es : List Event) × (t.events ≡ s.events ++ es)
    × (length es ≤ max_hops + 1)
    × (replay es (view_of s) ≡ view_of t)

Told-same : {W : Type 0} (s : State W) → Told s s
unfolding replay
Told-same s = ([], sym (append-nil s.events), omega arith, refl)

-- Nothing has happened, or one event has been published, which tells the change.
Told-one :
    {W : Type 0} (s t : State W) (e : Event)
    → (t ≡ s) ⊎ ((t.events ≡ s.events ++ (e ∷ [])) × (observe e (view_of s) ≡ view_of t))
    → Told s t
unfolding replay
Told-one s t e (inl same) = subst (Told s) (sym same) (Told-same s)
Told-one s t e (inr (logged, seen)) = (e ∷ [], logged, omega arith, seen)

told_block :
    (v : View) (x : SwapExecuted) (hops : List Event)
    → replay hops v ≡ v
    → replay (hops ++ (swap_executed x ∷ [])) v ≡ record v { nonce = some x.execution_id }
unfolding replay
told_block v x hops h =
    replay-append hops (swap_executed x ∷ []) v
    ∙ ap {A = View} (λ z. record z { nonce = some x.execution_id }) h

module _ {W : Type 0} (tokens : Tokens W) (adapters : Adapters W) (env : Env) where
  swap-Told :
      (trader token_in token_out : Address) (amount_in amount_out_min : ℤ) (deadline : ℕ)
      (path : List SwapStep) (s : State W) (r : Outcome RouterError ℤ × State W)
      → Ends tokens adapters env trader token_in token_out amount_in amount_out_min deadline path s
          r
      → Told s (invoke (drop_amount tokens adapters env r) s).1
  swap-Told trader token_in token_out amount_in amount_out_min deadline path s (ok out, t)
        (terms, _, (amounts, _, _, _, _, e)) =
      let hops = hop_records (next_id s) trader 0 amount_in path amounts in
      let x =
        summary tokens adapters env trader token_in token_out amount_in amount_out_min path
          (next_id s) (final_amount amount_in amounts) in
      subst (Told s) (sym e) (
        hops ++ (swap_executed x ∷ []),
        refl,
        block_bounded hops (swap_executed x) (length path)
            (length-hop_records (next_id s) trader 0 amount_in path amounts) terms.bounded,
        told_block (view_of s) x hops
            (replay-hop_records (next_id s) trader 0 amount_in path amounts (view_of s)),
      )
  swap-Told trader token_in token_out amount_in amount_out_min deadline path s (err x, t) h =
      Told-same s
  swap-Told trader token_in token_out amount_in amount_out_min deadline path s (trap, t) h =
      Told-same s

  -- Every invocation, whoever makes it, keeps the event log and appends at most six events; and who replays
  -- just these on the admin, pause flag, nonce, registry and code from before it has those from after it.
  pub perform-Told : (e : Entry) (s : State W) → Told s (perform tokens adapters env e s)
  unfolding perform initialize set_admin set_paused set_protocol remove_protocol upgrade
  perform-Told (initialize_entry a) s =
      Told-one s (perform tokens adapters env (initialize_entry a) s)
        (event_of s (initialize_entry a)) (ground arith)
  perform-Told (set_admin_entry a) s =
      Told-one s (perform tokens adapters env (set_admin_entry a) s)
        (event_of s (set_admin_entry a)) (ground arith)
  perform-Told (set_paused_entry b) s =
      Told-one s (perform tokens adapters env (set_paused_entry b) s)
        (event_of s (set_paused_entry b)) (ground arith)
  perform-Told (set_protocol_entry p a) s =
      Told-one s (perform tokens adapters env (set_protocol_entry p a) s)
        (event_of s (set_protocol_entry p a)) (ground arith)
  perform-Told (remove_protocol_entry p) s =
      Told-one s (perform tokens adapters env (remove_protocol_entry p) s)
        (event_of s (remove_protocol_entry p)) (ground arith)
  perform-Told (upgrade_entry c) s =
      Told-one s (perform tokens adapters env (upgrade_entry c) s) (event_of s (upgrade_entry c))
        (ground arith)
  perform-Told (swap_entry trader token_in token_out x y d path) s =
      swap-Told trader token_in token_out x y d path s
        (swap tokens adapters env trader token_in token_out x y d path s)
        (swap-Ends tokens adapters env trader token_in token_out x y d path s)

Told-view :
    {W : Type 0} (v : View) (t u : State W)
    → Told t u
    → replay t.events v ≡ view_of t
    → replay u.events v ≡ view_of u
Told-view v t u (es, logged, _, seen) h =
    ap (λ z. replay z v) logged ∙ replay-append t.events es v ∙ ap (replay es) h ∙ seen

module _ {W : Type 0} (tokens : Tokens W) (adapters : Adapters W) where
  -- Replaying the events of a deployed router, after any invocations of it that run the code it was
  -- deployed with, an `upgrade` as the last of them included, from its deployment on gives
  -- its admin, its pause flag, its nonce, its whole protocol registry and its code.
  pub reachable_replay :
      (code : Hash) (w : W) (t : State W)
      → Reach tokens adapters (deployed code w) t
      → replay t.events (view_of (deployed code w)) ≡ view_of t
  unfolding replay
  reachable_replay code w t here = refl
  reachable_replay code w t (invoked {t = s} env e own r) =
      Told-view (view_of (deployed code w)) s (perform tokens adapters env e s)
        (perform-Told tokens adapters env e s) (reachable_replay code w s r)
  reachable_replay code w t (outside {t = s} u r) = reachable_replay code w s r
