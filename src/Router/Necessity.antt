-- ===== src/Router/Necessity.antt =====
-- The converse of `Router.Completion` (contracts/router/src/lib.rs): a `Router::swap` that returns has
-- made these calls of other contracts, and they went through.
use stellariq_contract.Prelude.{
  ℕ, ◌+◌, ◌-◌, ◌≡◌, refl, sym, subst, subst₂, ◌∙◌, ap, some, List, [], ◌∷◌, ◌++◌, length, IsFrom,
  IsFrom-start, IsFrom-head, IsFrom-tail, ℤ, pos, ◌≤ℤ◌, ◌<ℤ◌, ◌-ℤ◌, IsI128, checked_sub, Map, arith,
}
use stellariq_contract.Soroban.{Address, Symbol, Env, Tokens, ok}
use stellariq_contract.Interfaces.{SwapStep, Adapters, Reply, value, unreadable, refused, aborted}
use stellariq_contract.Router.Storage.{State}
use stellariq_contract.Router.Swap.{
  token_transfer, adapter_swap, deliver, execute_hop, execute_from, swap,
}
use stellariq_contract.Router.Spec.{final_amount}
use stellariq_contract.Router.Settlement.{next_id}
use stellariq_contract.Router.Funds.{Through, Through-some, execute_hop-protocols}
use stellariq_contract.Router.Rounds.{loop_step, loop_end}
use stellariq_contract.Router.Calls.{settlement-calls}
use stellariq_contract.Router.Outcomes.{swap_settles}
use stellariq_contract.Router.Safety.{swap_proceeds}
use stellariq_contract.Router.Runs.{recipient_at, call_at, HopGoes, Runs, arrived, hop}

-- A reply is a value, which has a property.
abbrev Valued : {W : Type 0} → Reply W → (ℤ → W → Type 0) → Type 0
Valued (value v w) P = P v w
Valued _ P = ⊥

Valued-value :
    {W : Type 0} (r : Reply W) (P : ℤ → W → Type 0)
    → Valued r P
    → (v : ℤ) × (w : W) × (r ≡ value v w) × P v w
Valued-value (value v w) P h = (v, w, refl, h)
Valued-value (unreadable _) P h = absurd h
Valued-value (refused _) P h = absurd h
Valued-value aborted P h = absurd h

module _ {W : Type 0} (tokens : Tokens W) (adapters : Adapters W) (env : Env) (trader : Address)
    (last execution_id : ℕ) where
  module _ (i : ℕ) (x : SwapStep) (amount a : ℤ) (s t : State W) where
    abbrev recipient : Address
    recipient = recipient_at tokens adapters env s.protocols trader last i

    abbrev Remeasured : ℤ → ℤ → W → ℤ → Type 0
    Remeasured before reported w after =
        (pos 0 <ℤ reported)
        × IsI128 (after -ℤ before)
        × (a ≡ after -ℤ before)
        × (reported ≤ℤ a)
        × (x.amount_out_min ≤ℤ a)
        × (w ≡ t.world)

    abbrev Answered : ℤ → ℤ → W → Type 0
    Answered before reported w =
        Through (tokens.balance w x.token_out recipient) (Remeasured before reported w)

    abbrev Measured : Address → W → ℤ → Type 0
    Measured adapter sent before =
        Valued
          (adapters.try_swap sent adapter
            (call_at tokens adapters env s.protocols trader last i x amount))
          (Answered before)

    abbrev Forwarded : Address → W → Type 0
    Forwarded adapter sent =
        Through (tokens.balance sent x.token_out recipient) (Measured adapter sent)

    abbrev Resolved : Address → Type 0
    Resolved adapter =
        Through (tokens.transfer s.world env.contract x.token_in env.contract adapter amount)
          (Forwarded adapter)

    hop-Through :
        execute_hop tokens adapters env trader last execution_id i x amount s ≡ (ok a, t)
        → Through (s.protocols x.protocol) Resolved
    unfolding execute_hop token_transfer deliver adapter_swap checked_sub
    hop-Through h = ground arith

    pub hop-HopGoes :
        execute_hop tokens adapters env trader last execution_id i x amount s ≡ (ok a, t)
        → HopGoes tokens adapters env s.protocols trader last i x amount s.world a t.world
    hop-HopGoes h =
        let (adapter, known, h1) = Through-some (s.protocols x.protocol) Resolved (hop-Through h) in
        let (sent, forwarded, h2) = Through-some _ (Forwarded adapter) h1 in
        let (before, measured, h3) = Through-some _ (Measured adapter sent) h2 in
        let (reported, w, answered, h4) = Valued-value _ (Answered before) h3 in
        let (after, remeasured, (positive, fits, delivered, honest, enough, same)) =
          Through-some _ (Remeasured before reported w) h4 in
        record {
          adapter = adapter;
          sent = sent;
          before = before;
          reported = reported;
          after = after;
          known = known;
          forwarded = forwarded;
          measured = measured;
          answered = answered ∙ ap (value reported) same;
          remeasured =
              subst (λ z. tokens.balance z x.token_out recipient ≡ some after) same remeasured;
          positive = positive;
          fits = fits;
          delivered = delivered;
          honest = honest;
          enough = enough;
        }

  module _ (path : List SwapStep) (registry : Map Symbol Address) where
    abbrev Ran : ℕ → List SwapStep → ℤ → W → ℤ → W → Type 0
    Ran i rest amount w out w' =
        (amounts : List ℤ) × Runs tokens adapters env registry trader last i rest amount w amounts
          w'
        × (out ≡ final_amount amount amounts)

    pub loop-Ran :
        (rest : List SwapStep) (i : ℕ) (amount : ℤ) (protocols : List Symbol) (s : State W)
        (r : ℤ × List Symbol) (t : State W)
        → s.protocols ≡ registry
        → IsFrom path i rest
        → execute_from tokens adapters env trader last execution_id path
            (length rest)
            i
            amount
            protocols
            s
          ≡ (ok r, t)
        → Ran i rest amount s.world r.0 t.world
    loop-Ran [] i amount protocols s r t p h e =
        let (same, stays) =
          loop_end tokens adapters env trader last execution_id path i amount protocols s e in
        subst (λ z. Ran i [] amount s.world r.0 z) (ap (λ z. z.world) stays) ([], arrived, same)
    loop-Ran (x ∷ rest) i amount protocols s r t p h e =
        let (a, u, hopped, more) =
          loop_step tokens adapters env trader last execution_id path (length rest) i x amount
            protocols s (IsFrom-head path i x rest h) e in
        let kept =
          execute_hop-protocols tokens adapters env trader last execution_id i x amount a s u
            hopped in
        let (amounts, runs, same) =
          loop-Ran rest (i + 1) a (protocols ++ (x.protocol ∷ [])) u r t (kept ∙ p)
            (IsFrom-tail path i x rest h) more in
        let goes =
          subst (λ z. HopGoes tokens adapters env z trader last i x amount s.world a u.world) p
            (hop-HopGoes i x amount a s u hopped) in
        (a ∷ amounts, hop goes runs, same)

module _ {W : Type 0} (tokens : Tokens W) (adapters : Adapters W) (env : Env)
    (trader token_in token_out : Address) (amount_in amount_out_min : ℤ) (deadline : ℕ)
    (path : List SwapStep) (s : State W) where
  -- A swap that returns has pulled the input from the trader, and then every hop has gone through, in
  -- order and each with what the hop before it yielded: the returned amount is the last one, and the
  -- other contracts are in the state that these calls lead to.
  pub swap_needs :
      (out : ℤ) (t : State W)
      → swap tokens adapters env trader token_in token_out amount_in amount_out_min deadline path s
        ≡ (ok out, t)
      → (pulled : W) × (amounts : List ℤ) × (tokens.transfer s.world env.contract token_in trader
            env.contract amount_in
          ≡ some pulled)
        × Runs tokens adapters env s.protocols trader
            (length path - 1)
            0
            path
            amount_in
            pulled
            amounts
            t.world
        × (out ≡ final_amount amount_in amounts)
  swap_needs out t done =
      let (terms, route, _) =
        swap_settles tokens adapters env trader token_in token_out amount_in amount_out_min deadline
          path s out t done in
      let (w, last, ps, v, moved, hops, run, same) =
        settlement-calls tokens adapters env trader token_in token_out amount_in amount_out_min path
          s out t terms.initialized
          (sym (
              swap_proceeds tokens adapters env trader token_in token_out amount_in amount_out_min
                deadline path s terms route)
            ∙ done) in
      let (amounts, runs, total) =
        loop-Ran tokens adapters env trader last (next_id s) path s.protocols path 0 amount_in []
          (record s { nonce = some (next_id s); world = w }) (out, ps) v refl (IsFrom-start path)
          run in
      let at : last ≡ length path - 1 = ground (arith, hops) in
      (
        w,
        amounts,
        moved,
        subst₂ (λ n z. Runs tokens adapters env s.protocols trader n 0 path amount_in w amounts z)
            at same runs,
        total,
      )
