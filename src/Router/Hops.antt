-- ===== src/Router/Hops.antt =====
-- One round of the execution loop of `Router::swap`, and the loop: what a call leaves behind, by how
-- it ends.
use stellariq_contract.Prelude.{
  ℕ, ◌+◌, ◌≡◌, ◌≢◌, refl, ◌⊎◌, ◌∙◌, sym, none, List, [], ◌∷◌, ◌++◌, map, append_assoc, append-nil,
  length, IsFrom, IsFrom-head, IsFrom-tail, ℤ, pos, ◌≤ℤ◌, ◌<ℤ◌, arith,
}
use stellariq_contract.Soroban.{
  Address, Symbol, Env, Tokens, Outcome, Contract, ◌>>=◌, ok, err, trap,
}
use stellariq_contract.Interfaces.{
  RouterError, insufficient_output, swap_failed, SwapStep, Adapters, Event, hop_executed,
  event_schema_version,
}
use stellariq_contract.Router.Storage.{State}
use stellariq_contract.Router.Swap.{
  token_transfer, adapter_swap, deliver, execute_hop, execute_from,
}
use stellariq_contract.Router.Spec.{IsRegistered, Fills, final_amount, hop_records}

module _ {W : Type 0} (tokens : Tokens W) (adapters : Adapters W) (env : Env) where
  module _ (trader : Address) (last execution_id : ℕ) where
    abbrev pub record_of : ℕ → SwapStep → ℤ → ℤ → Event
    record_of i x amount_in amount_out = hop_executed (record {
      execution_id = execution_id;
      trader = trader;
      hop_index = i;
      protocol = x.protocol;
      pool = x.pool;
      token_in = x.token_in;
      token_out = x.token_out;
      amount_in = amount_in;
      amount_out = amount_out;
      version = event_schema_version;
    })

    abbrev pub Hopped : ℕ → SwapStep → ℤ → State W → Outcome RouterError ℤ × State W → Type 0
    Hopped i x amount s (ok a, t) =
        (t ≡ record s { events = s.events ++ (record_of i x amount a ∷ []); world = t.world })
        × (pos 0 <ℤ a)
        × (x.amount_out_min ≤ℤ a)
    Hopped i x amount s (err e, t) = (e ≡ swap_failed) ⊎ (e ≡ insufficient_output)
    Hopped i x amount s (trap, t) = Unit

    pub execute_hop-Hopped :
        (i : ℕ) (x : SwapStep) (amount : ℤ) (s : State W)
        → s.protocols x.protocol ≢ none
        → Hopped i x amount s
            (execute_hop tokens adapters env trader last execution_id i x amount s)
    unfolding execute_hop token_transfer deliver adapter_swap
    execute_hop-Hopped i x amount s h = ground arith

    abbrev pub Executed :
        ℕ
        → List SwapStep
        → ℤ
        → List Symbol
        → State W
        → Outcome RouterError (ℤ × List Symbol) × State W
        → Type 0
    Executed i path amount protocols s (ok (a, ps), t) =
        (amounts : List ℤ) × Fills path amounts
        × (a ≡ final_amount amount amounts)
        × (ps ≡ protocols ++ map (λ x. x.protocol) path)
        × (t ≡ record s {
          events = s.events ++ hop_records execution_id trader i amount path amounts;
          world = t.world;
        })
    Executed i path amount protocols s (err e, t) = (e ≡ swap_failed) ⊎ (e ≡ insufficient_output)
    Executed i path amount protocols s (trap, t) = Unit

    -- A hop that goes through, and then the loop over the other steps.
    prepend :
        (i : ℕ) (x : SwapStep) (path : List SwapStep) (amount a : ℤ) (protocols : List Symbol)
        (s t : State W)
        → Hopped i x amount s (ok a, t)
        → (r : Outcome RouterError (ℤ × List Symbol) × State W)
        → Executed (i + 1) path a (protocols ++ (x.protocol ∷ [])) t r
        → Executed i (x ∷ path) amount protocols s r
    prepend i x path amount a protocols s t (e, p, m) (ok (b, ps), u) (amounts, f, l, q, v) = (
      a ∷ amounts,
      (p, m, f),
      l,
      q ∙ append_assoc protocols (x.protocol ∷ []) (map (λ y. y.protocol) path),
      ground (
        arith,
        append_assoc s.events (record_of i x amount a ∷ [])
            (hop_records execution_id trader (i + 1) a path amounts),
      ),
    )
    prepend i x path amount a protocols s t h (err e, u) k = k
    prepend i x path amount a protocols s t h (trap, u) k = tt

    -- The loop's bind, on how the hop ended.
    after_hop :
        (i : ℕ) (x : SwapStep) (path : List SwapStep) (amount : ℤ) (protocols : List Symbol)
        (s : State W) (next : ℤ → Contract (State W) RouterError (ℤ × List Symbol))
        (hop : Outcome RouterError ℤ × State W)
        → Hopped i x amount s hop
        → ((a : ℤ) (t : State W)
            → t.protocols ≡ s.protocols
            → Executed (i + 1) path a (protocols ++ (x.protocol ∷ [])) t (next a t))
        → Executed i (x ∷ path) amount protocols s (((λ _. hop) >>= next) s)
    after_hop i x path amount protocols s next (ok a, t) h ih =
        prepend i x path amount a protocols s t h (next a t) (ih a t (cc (h.0)))
    after_hop i x path amount protocols s next (err e, t) h ih = h
    after_hop i x path amount protocols s next (trap, t) h ih = tt

    module _ (path : List SwapStep) where
      pub execute_from-Executed :
          (rest : List SwapStep) (i : ℕ) (amount : ℤ) (protocols : List Symbol) (s : State W)
          → IsFrom path i rest
          → IsRegistered s.protocols rest
          → Executed i rest amount protocols s (
              execute_from tokens adapters env trader last execution_id path
                (length rest)
                i
                amount
                protocols
                s)
      unfolding execute_from
      execute_from-Executed [] i amount protocols s h reg =
          ([], tt, refl, sym (append-nil protocols), ground (arith, append-nil s.events))
      execute_from-Executed (x ∷ rest) i amount protocols s h reg =
          rw (IsFrom-head path i x rest h) (
            after_hop i x rest amount protocols s _
              (execute_hop tokens adapters env trader last execution_id i x amount s)
              (execute_hop-Hopped i x amount s reg.0)
              (λ a t e.
                execute_from-Executed rest (i + 1) a (protocols ++ (x.protocol ∷ [])) t
                  (IsFrom-tail path i x rest h) (rw e reg.1)))
