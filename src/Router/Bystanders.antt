-- ===== src/Router/Bystanders.antt =====
-- Whom `Router::swap` leaves alone (contracts/router/src/lib.rs).
use stellariq_contract.Prelude.{
  ℕ, ◌+◌, ◌≡◌, ◌≢◌, sym, ap, subst, some, ◌∙◌, Bool, true, false, ◌&&◌, if◌then◌else◌, List, [],
  ◌∷◌, ◌++◌, length, ◌==◌, IsFrom, IsFrom-start, IsFrom-head, IsFrom-tail, ℤ, ◌+ℤ◌, ◌-ℤ◌, arith,
  int_laws, parts_eq,
}
use stellariq_contract.Soroban.{Address, Symbol, Env, Tokens, ok}
use stellariq_contract.Soroban.Sep41.{when, IsLedger}
use stellariq_contract.Interfaces.{SwapStep, Adapters}
use stellariq_contract.Router.Storage.{State}
use stellariq_contract.Router.Swap.{execute_from, swap}
use stellariq_contract.Router.Settlement.{next_id}
use stellariq_contract.Router.Funds.{
  Holds, IsConfined, HopCalls-funds, recipient_of, execute_hop-HopCalls, execute_hop-protocols,
}
use stellariq_contract.Router.Custody.{IsApart}
use stellariq_contract.Router.Rounds.{loop_step, loop_end}
use stellariq_contract.Router.Safety.{swap-calls}

Holds-unpaid :
    (exact : Bool) (p q r : ℤ) (b c : Bool) (x y : ℤ)
    → b ≡ false
    → c ≡ false
    → Holds exact (p -ℤ when b x +ℤ when c y) q
    → Holds exact q r
    → Holds exact p r
Holds-unpaid exact p q r true c x y off out h k = absurd (ground arith)
Holds-unpaid exact p q r false true x y off out h k = absurd (ground arith)
Holds-unpaid true p q r false false x y off out h k = omega (int_laws, parts_eq h, parts_eq k)
Holds-unpaid false p q r false false x y off out h k = omega int_laws

Holds-moved :
    (exact : Bool) (p q r : ℤ) (b c : Bool) (x : ℤ)
    → b ≡ false
    → c ≡ false
    → q ≡ p +ℤ when b x -ℤ when c x
    → Holds exact q r
    → Holds exact p r
Holds-moved exact p q r true c x off out e k = absurd (ground arith)
Holds-moved exact p q r false true x off out e k = absurd (ground arith)
Holds-moved true p q r false false x off out e k = omega (int_laws, parts_eq e, parts_eq k)
Holds-moved false p q r false false x off out e k = omega (int_laws, parts_eq e)

Holds-same : (exact : Bool) {p q : ℤ} → p ≡ q → Holds exact p q
Holds-same true e = e
Holds-same false e = omega (int_laws, parts_eq e)

others_pay : (u t h k : Address) → h ≢ k → (u == t && h == k) ≡ false
others_pay u t h k other = ground arith

others_get :
    (u t h trader router : Address) (i last : ℕ)
    → h ≢ trader
    → h ≢ router
    → (u == t && h == (if i == last then trader else router)) ≡ false
others_get u t h trader router i last n m = ground arith

module _ {W : Type 0} (tokens : Tokens W) (adapters : Adapters W) (env : Env)
    (funds : W → Address → Address → ℤ) (ledger : IsLedger tokens funds) (exact : Bool)
    (trader h : Address) (not_router : h ≢ env.contract) (not_trader : h ≢ trader)
    (confined : IsConfined adapters funds exact h) where
  open ledger use {transfer_funds}

  module _ (last execution_id : ℕ) (path : List SwapStep) where
    loop-bystander :
        (rest : List SwapStep) (i : ℕ) (amount : ℤ) (ps : List Symbol) (s : State W)
        (r : ℤ × List Symbol) (t : State W)
        → IsFrom path i rest
        → IsApart h s
        → execute_from tokens adapters env trader last execution_id path (length rest) i amount ps s
          ≡ (ok r, t)
        → (u : Address) → Holds exact (funds s.world u h) (funds t.world u h)
    loop-bystander [] i amount ps s r t from apart run u =
        let (out, same) =
          loop_end tokens adapters env trader last execution_id path i amount ps s {r = r} {t = t}
            run in
        Holds-same exact (ap (λ z. funds z.world u h) same)
    loop-bystander (x ∷ rest) i amount ps s r t from apart run u =
        let (a, s1, hopped, more) =
          loop_step tokens adapters env trader last execution_id path (length rest) i x amount ps s
            (IsFrom-head path i x rest from) run in
        let recipient = recipient_of tokens adapters env trader last i in
        let calls =
          execute_hop-HopCalls tokens adapters env trader last execution_id i x amount a s s1
            hopped in
        let kept =
          execute_hop-protocols tokens adapters env trader last execution_id i x amount a s s1
            hopped in
        let hop =
          HopCalls-funds tokens adapters env funds ledger exact h confined recipient x amount a s s1
            (apart x.protocol) calls u in
        Holds-unpaid exact (funds s.world u h) (funds s1.world u h) (funds t.world u h)
          (u == x.token_in && h == env.contract) (u == x.token_out && h == recipient) amount a
          (others_pay u x.token_in h env.contract not_router)
          (others_get u x.token_out h trader env.contract i last not_trader not_router) hop
          (loop-bystander rest (i + 1) a (ps ++ (x.protocol ∷ [])) s1 r t
            (IsFrom-tail path i x rest from) (λ p b e. apart p b (ap (λ m. m p) (sym kept) ∙ e))
            more u)

  -- Where the tokens keep to SEP-41, a swap that returns has not lowered any balance of a third party, who is
  -- neither the router nor the trader nor a registered adapter, and whose funds no adapter can spend; and
  -- has changed none, where adapter calls give to nobody but the recipient of their output.
  pub swap_spares_bystanders :
      (token_in token_out : Address) (amount_in amount_out_min : ℤ) (deadline : ℕ)
      (path : List SwapStep) (s t : State W) (out : ℤ)
      → IsApart h s
      → swap tokens adapters env trader token_in token_out amount_in amount_out_min deadline path s
        ≡ (ok out, t)
      → (u : Address) → Holds exact (funds s.world u h) (funds t.world u h)
  swap_spares_bystanders token_in token_out amount_in amount_out_min deadline path s t out apart
        done u =
      let (w, last, ps, v, moved, hops, run, same) =
        swap-calls tokens adapters env funds ledger exact trader token_in token_out amount_in
          amount_out_min deadline path s t out done in
      let pulled =
        transfer_funds s.world env.contract token_in trader env.contract amount_in w u h moved in
      let loop =
        loop-bystander last (next_id s) path path 0 amount_in []
          (record s { nonce = some (next_id s); world = w }) (out, ps) v (IsFrom-start path) apart
          run u in
      Holds-moved exact (funds s.world u h) (funds w u h) (funds t.world u h)
        (u == token_in && h == env.contract) (u == token_in && h == trader) amount_in
        (others_pay u token_in h env.contract not_router)
        (others_pay u token_in h trader not_trader) pulled
        (subst (λ z. Holds exact (funds w u h) (funds z u h)) same loop)
