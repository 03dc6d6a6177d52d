-- ===== src/Router/Failures.antt =====
-- Where the execution loop of `Router::swap` gives up, and on what (contracts/router/src/lib.rs).
use stellariq_contract.Prelude.{
  ℕ, suc, ◌+◌, ◌≡◌, ◌≢◌, ◌⊎◌, inl, inr, sym, subst, ◌∙◌, ap, none, some, List, [], ◌∷◌, ◌++◌,
  length, IsFrom, IsFrom-head, IsFrom-tail, get_elem?, ℤ, pos, ◌≤ℤ◌, ◌<ℤ◌, ◌-ℤ◌, IsI128,
  checked_sub, Map, arith,
}
use stellariq_contract.Soroban.{
  Address, Symbol, Env, Tokens, Contract, err, ok_or, BindErr-inv, BindErr, ◌>>=◌,
}
use stellariq_contract.Interfaces.{
  RouterError, swap_failed, insufficient_output, empty_path, SwapStep, Adapters, Reply, value,
  unreadable, refused, aborted,
}
use stellariq_contract.Router.Storage.{State}
use stellariq_contract.Router.Swap.{
  token_transfer, adapter_swap, deliver, execute_hop, execute_from,
}
use stellariq_contract.Router.Spec.{IsRegistered}
use stellariq_contract.Router.Funds.{Through, Through-some, execute_hop-protocols}
use stellariq_contract.Router.Runs.{recipient_at, call_at, HopGoes}
use stellariq_contract.Router.Necessity.{hop-HopGoes}

-- What is wrong with a delivery, by the error that it leads to: less than reported, or more than the
-- range of an `i128`; or else less than the step's minimum.
abbrev pub Misdelivers : ℤ → ℤ → ℤ → RouterError → Type 0
Misdelivers reported delivered minimum e =
    ((e ≡ swap_failed) × ((¬ IsI128 delivered) ⊎ (delivered <ℤ reported)))
    ⊎ ((e ≡ insufficient_output) × (reported ≤ℤ delivered) × (delivered <ℤ minimum))

module _ {W : Type 0} (tokens : Tokens W) (x : SwapStep) (recipient : Address) (before : ℤ) where
  -- What is wrong with a reply: no value, a value that is not positive, or a wrong delivery.
  abbrev pub Fails : RouterError → Reply W → Type 0
  Fails e (value reported w) =
      ((e ≡ swap_failed) × (reported ≤ℤ pos 0))
      ⊎ ((pos 0 <ℤ reported)
          × Through (tokens.balance w x.token_out recipient)
              (λ after. Misdelivers reported (after -ℤ before) x.amount_out_min e))
  Fails e (unreadable w) = e ≡ swap_failed
  Fails e (refused _) = e ≡ swap_failed
  Fails e aborted = e ≡ swap_failed

module _ {W : Type 0} (tokens : Tokens W) (adapters : Adapters W) (env : Env)
    (protocols : Map Symbol Address) (trader : Address) (last : ℕ) where
  -- Hop `i` hands its input over, and fails with an error on what the adapter does.
  pub record HopFails (i : ℕ) (x : SwapStep) (amount : ℤ) (w : W) (e : RouterError) : Type 0 where
    pub adapter : Address
    pub sent : W
    pub before : ℤ
    pub known : protocols x.protocol ≡ some adapter
    pub forwarded :
        tokens.transfer w env.contract x.token_in env.contract adapter amount ≡ some sent
    pub measured :
        tokens.balance sent x.token_out (recipient_at tokens adapters env protocols trader last i)
        ≡ some before
    pub fails : Fails tokens x (recipient_at tokens adapters env protocols trader last i) before e (
        adapters.try_swap sent adapter
          (call_at tokens adapters env protocols trader last i x amount))

  -- The steps go through up to one that fails.
  pub data RunFails : ℕ → List SwapStep → ℤ → W → RouterError → Type 0 where
    here :
        {i : ℕ} {x : SwapStep} {path : List SwapStep} {amount : ℤ} {w : W} {e : RouterError}
        → HopFails i x amount w e
        → RunFails i (x ∷ path) amount w e
    later :
        {i : ℕ} {x : SwapStep} {path : List SwapStep} {amount a : ℤ} {w w1 : W} {e : RouterError}
        → HopGoes tokens adapters env protocols trader last i x amount w a w1
        → RunFails (i + 1) path a w1 e
        → RunFails i (x ∷ path) amount w e

module _ {W : Type 0} (tokens : Tokens W) (adapters : Adapters W) (env : Env) (trader : Address)
    (last execution_id : ℕ) where
  module _ (i : ℕ) (x : SwapStep) (amount : ℤ) (s t : State W) (e : RouterError) where
    abbrev Answered : Address → W → ℤ → Type 0
    Answered adapter sent before =
        Fails tokens x (recipient_at tokens adapters env s.protocols trader last i) before e (
          adapters.try_swap sent adapter
            (call_at tokens adapters env s.protocols trader last i x amount))

    abbrev Forwarded : Address → W → Type 0
    Forwarded adapter sent =
        Through
          (tokens.balance sent x.token_out
            (recipient_at tokens adapters env s.protocols trader last i))
          (Answered adapter sent)

    abbrev Resolved : Address → Type 0
    Resolved adapter =
        Through (tokens.transfer s.world env.contract x.token_in env.contract adapter amount)
          (Forwarded adapter)

    hop-Through :
        s.protocols x.protocol ≢ none
        → execute_hop tokens adapters env trader last execution_id i x amount s ≡ (err e, t)
        → Through (s.protocols x.protocol) Resolved
    unfolding execute_hop token_transfer deliver adapter_swap checked_sub
    hop-Through known h = ground arith

    hop-HopFails :
        s.protocols x.protocol ≢ none
        → execute_hop tokens adapters env trader last execution_id i x amount s ≡ (err e, t)
        → HopFails tokens adapters env s.protocols trader last i x amount s.world e
    hop-HopFails registered h =
        let (adapter, known, h1) =
          Through-some (s.protocols x.protocol) Resolved (hop-Through registered h) in
        let (sent, forwarded, h2) = Through-some _ (Forwarded adapter) h1 in
        let (before, measured, h3) = Through-some _ (Answered adapter sent) h2 in
        record {
          adapter = adapter;
          sent = sent;
          before = before;
          known = known;
          forwarded = forwarded;
          measured = measured;
          fails = h3;
        }

  module _ (path : List SwapStep) (registry : Map Symbol Address) where
    round_fails :
        (rounds i : ℕ) (x : SwapStep) (amount : ℤ) (ps : List Symbol) (s t : State W)
        (e : RouterError)
        → get_elem? path i ≡ some x
        → execute_from tokens adapters env trader last execution_id path (suc rounds) i amount ps s
          ≡ (err e, t)
        → BindErr
            (execute_hop tokens adapters env trader last execution_id i x amount)
            (λ a.
              execute_from tokens adapters env trader last execution_id path rounds
                (i + 1)
                a
                (ps ++ (x.protocol ∷ [])))
            s
            e
            t
    unfolding execute_from
    round_fails rounds i x amount ps s t e at h =
        let next : SwapStep → ℤ → Contract (State W) RouterError (ℤ × List Symbol) = λ y a.
          execute_from tokens adapters env trader last execution_id path rounds (i + 1) a
            (ps ++ (y.protocol ∷ [])) in
        let hop : SwapStep → Contract (State W) RouterError ℤ =
          λ y. execute_hop tokens adapters env trader last execution_id i y amount in
        BindErr-inv (hop x) (next x) s
          (subst (λ o. (ok_or o empty_path >>= λ y. hop y >>= next y) s ≡ (err e, t)) at h)

    pub loop-RunFails :
        (rest : List SwapStep) (i : ℕ) (amount : ℤ) (ps : List Symbol) (s t : State W)
        (e : RouterError)
        → s.protocols ≡ registry
        → IsFrom path i rest
        → IsRegistered registry rest
        → execute_from tokens adapters env trader last execution_id path (length rest) i amount ps s
          ≡ (err e, t)
        → RunFails tokens adapters env registry trader last i rest amount s.world e
    unfolding execute_from
    loop-RunFails [] i amount ps s t e p from registered h = absurd (ground arith)
    loop-RunFails (x ∷ rest) i amount ps s t e p from (known, registered) h =
        elim (round_fails (length rest) i x amount ps s t e (IsFrom-head path i x rest from) h) [
          | inl failed ↦
              subst (λ z. RunFails tokens adapters env z trader last i (x ∷ rest) amount s.world e)
                p
                (here (
                  hop-HopFails i x amount s t e
                    (λ gone. known (ap (λ z. z x.protocol) (sym p) ∙ gone)) failed))
          | inr (a, u, hopped, more) ↦
              let kept =
                execute_hop-protocols tokens adapters env trader last execution_id i x amount a s u
                  hopped in
              later
                (subst (λ z. HopGoes tokens adapters env z trader last i x amount s.world a u.world)
                  p
                  (hop-HopGoes tokens adapters env trader last execution_id i x amount a s u
                    hopped))
                (loop-RunFails rest (i + 1) a (ps ++ (x.protocol ∷ [])) u t e (kept ∙ p)
                  (IsFrom-tail path i x rest from) registered more)
        ]
