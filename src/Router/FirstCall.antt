-- ===== src/Router/FirstCall.antt =====
-- The first hop of `Router::swap` (contracts/router/src/lib.rs) among contracts that count the calls of
-- adapters.
use stellariq_contract.Prelude.{
  ℕ, ◌+◌, ◌≤◌, ◌<◌, ◌≡◌, ◌≢◌, refl, sym, ◌∙◌, ap, subst, none, some, Option, List, [], ◌∷◌, length,
  ℤ, arith,
}
use stellariq_contract.Soroban.{Address, Env, Tokens, Contract, Outcome, ok, err, trap, ◌>>=◌}
use stellariq_contract.Interfaces.{SwapStep, Adapters}
use stellariq_contract.Router.Storage.{State}
use stellariq_contract.Router.Swap.{
  token_transfer, adapter_swap, deliver, execute_hop, execute_from,
}
use stellariq_contract.Router.Spec.{IsRegistered}
use stellariq_contract.Router.Tracking.{Tracks}
use stellariq_contract.Router.Metering.{
  meter, unmetered, metered, execute_hop-Tracks, execute_from-Tracks,
}

-- More than `n` calls, unless the run traps.
abbrev pub Called : {E A : Type 0} → Outcome E A → ℕ → ℕ → Type 0
Called (ok a) n c = n + 1 ≤ c
Called (err e) n c = n + 1 ≤ c
Called trap n c = Unit

-- The second run ends as the first does, and has counted a call unless it traps.
pub record Calls {W E A : Type 0} (m : Contract (State W) E A) (m' : Contract (State (W × ℕ)) E A)
    (s : State W) : Type 0 where
  pub run : (n : ℕ) → (c : ℕ) × (m' (meter s n) ≡ ((m s).0, meter (m s).1 c)) × Called (m s).0 n c

module _ {W E A B : Type 0} {f : A → Contract (State W) E B} {f' : A → Contract (State (W × ℕ)) E B}
    (k : ℕ) (rest : (a : A) → Tracks meter k (f a) (f' a)) where
  abbrev CallEnds : ℕ → Outcome E B × State W → Outcome E B × State (W × ℕ) → Type 0
  CallEnds n r r' = (c : ℕ) × (r' ≡ (r.0, meter r.1 c)) × Called r.0 n c

  more_called : (r : Outcome E B) (n c d : ℕ) → n + 1 ≤ c → c ≤ d → Called r n d
  more_called (ok b) n c d one more = omega arith
  more_called (err e) n c d one more = omega arith
  more_called trap n c d one more = tt

  call_ends :
      (n c : ℕ) (r : Outcome E A) (t : State W) (s : State W)
      → Called r n c
      → CallEnds n (((λ _. (r, t)) >>= f) s) (((λ _. (r, meter t c)) >>= f') (meter s n))
  call_ends n c (ok a) t s one =
      let (d, e, more, _, _) = (rest a).run t c in (d, e, more_called _ n c d one more)
  call_ends n c (err x) t s one = (c, refl, one)
  call_ends n c trap t s one = (c, refl, tt)

  pub Calls-bind :
      (m : Contract (State W) E A) (m' : Contract (State (W × ℕ)) E A) (s : State W)
      → Calls m m' s
      → Calls (m >>= f) (m' >>= f') s
  Calls-bind m m' s first = record {
    run = λ n.
        let (c, e, one) = first.run n in
        subst (λ z. CallEnds n ((m >>= f) s) (((λ _. z) >>= f') (meter s n))) (sym e)
          (call_ends n c (m s).0 (m s).1 s one);
  }

-- A count is part of what a run leaves.
pub called_same :
    {W E A : Type 0} (m : Contract (State W) E A) (m' : Contract (State (W × ℕ)) E A) (s : State W)
    (n c : ℕ)
    → Calls m m' s
    → m' (meter s n) ≡ ((m s).0, meter (m s).1 c)
    → Called (m s).0 n c
called_same m m' s n c calls e =
    let (d, e', one) = calls.run n in
    subst (Called (m s).0 n) (ap (λ z. z.1.world.1) (sym e' ∙ e)) one

module _ {W : Type 0} (tokens : Tokens W) (adapters : Adapters W) (env : Env) where
  hop_counted :
      (trader : Address) (last execution_id i : ℕ) (step : SwapStep) (amount : ℤ) (s : State W)
      (adapter : Address)
      → s.protocols step.protocol ≡ some adapter
      → (n c : ℕ)
      → execute_hop
          (unmetered tokens)
          (metered adapters)
          env
          trader
          last
          execution_id
          i
          step
          amount
          (meter s n)
        ≡ (
          (execute_hop tokens adapters env trader last execution_id i step amount s).0,
          meter (execute_hop tokens adapters env trader last execution_id i step amount s).1 c,
        )
      → Called (execute_hop tokens adapters env trader last execution_id i step amount s).0 n c
  unfolding execute_hop token_transfer deliver adapter_swap
  hop_counted trader last execution_id i step amount s adapter found n c e = ground arith

  execute_hop-Calls :
      (trader : Address) (last execution_id i : ℕ) (step : SwapStep) (amount : ℤ) (s : State W)
      (o : Option Address)
      → s.protocols step.protocol ≡ o
      → o ≢ none
      → Calls
          (execute_hop tokens adapters env trader last execution_id i step amount)
          (execute_hop
            (unmetered tokens)
            (metered adapters)
            env
            trader
            last
            execution_id
            i
            step
            amount)
          s
  execute_hop-Calls trader last execution_id i step amount s none found known = absurd (known refl)
  execute_hop-Calls trader last execution_id i step amount s (some adapter) found known = record {
    run = λ n.
        let (c, e, _, _, _) =
          (execute_hop-Tracks tokens adapters env trader last execution_id i step amount).run s n in
        (c, e, hop_counted trader last execution_id i step amount s adapter found n c e);
  }

  -- The loop over a route of some hops.
  pub execute_from-Calls :
      (trader : Address) (last execution_id : ℕ) (path : List SwapStep) (amount : ℤ) (s : State W)
      → 0 < length path
      → IsRegistered s.protocols path
      → Calls
          (execute_from tokens adapters env trader last execution_id path (length path) 0 amount [])
          (execute_from
            (unmetered tokens)
            (metered adapters)
            env
            trader
            last
            execution_id
            path
            (length path)
            0
            amount
            [])
          s
  unfolding execute_from
  execute_from-Calls trader last execution_id [] amount s some_hops h = absurd (ground arith)
  execute_from-Calls trader last execution_id (x ∷ path) amount s some_hops (known, h) =
      Calls-bind (length path)
        (λ hop_out.
          execute_from-Tracks tokens adapters env trader last execution_id (x ∷ path) (length path)
            1 hop_out (x.protocol ∷ []))
        (execute_hop tokens adapters env trader last execution_id 0 x amount)
        (execute_hop (unmetered tokens) (metered adapters) env trader last execution_id 0 x amount)
        s
        (execute_hop-Calls trader last execution_id 0 x amount s (s.protocols x.protocol) refl
          known)
