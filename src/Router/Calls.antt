-- ===== src/Router/Calls.antt =====
-- The calls behind a `Router::swap` that returns (contracts/router/src/lib.rs): the pull of the input,
-- and the execution loop.
use stellariq_contract.Prelude.{
  ℕ, zero, suc, ◌≡◌, ◌≢◌, sym, ap, ◌∙◌, inl, inr, none, some, List, [], length, Option-cases, ℤ,
  arith,
}
use stellariq_contract.Soroban.{Address, Symbol, Env, Tokens, Contract, ok, ok_or, bind_inv, ◌>>=◌}
use stellariq_contract.Interfaces.{RouterError, empty_path, SwapStep, Adapters}
use stellariq_contract.Router.Storage.{State, next_nonce}
use stellariq_contract.Router.Swap.{checked_pred, token_transfer, execute_from, settlement}
use stellariq_contract.Router.Settlement.{next_id, next_nonce-Allocated, finish, with_id, run_hops}

pub transferred :
    {W : Type 0} (tokens : Tokens W) (adapters : Adapters W) (env : Env) (token from to : Address)
    (amount : ℤ) (s : State W) {x : Unit {0}} {t : State W}
    → token_transfer tokens adapters env token from to amount s ≡ (ok x, t)
    → (w : W) × (tokens.transfer s.world env.contract token from to amount ≡ some w)
      × (t ≡ record s { world = w })
unfolding token_transfer
transferred tokens adapters env token from to amount s h =
    elim (Option-cases (tokens.transfer s.world env.contract token from to amount)) [
      | inl e ↦ ground arith
      | inr (w, e) ↦ (w, e, ground arith)
    ]

pub counted :
    {W : Type 0} (n last : ℕ) (s t : State W)
    → ok_or {E = RouterError} (checked_pred n) empty_path s ≡ (ok last, t)
    → (n ≡ suc last) × (t ≡ s)
counted zero last s t h = cc
counted (suc n) last s t h = ground arith

pub allocated :
    {W : Type 0} (s : State W) (id : ℕ) (t : State W)
    → s.admin ≢ none
    → next_nonce s ≡ (ok id, t)
    → (id ≡ next_id s) × (t ≡ record s { nonce = some (next_id s) })
allocated s id t a h = ground (arith, next_nonce-Allocated s a)

module _ {W : Type 0} (tokens : Tokens W) (adapters : Adapters W) (env : Env)
    (trader token_in token_out : Address) (amount_in amount_out_min : ℤ)
    (path : List SwapStep) where
  finish-ok :
      (execution_id : ℕ) (r : ℤ × List Symbol) (s : State W) {out : ℤ} {t : State W}
      → (finish tokens adapters env trader token_in token_out amount_in amount_out_min path)
          execution_id r s
        ≡ (ok out, t)
      → (out ≡ r.0) × (t.world ≡ s.world)
  finish-ok execution_id r s h = ground arith

  -- The execution loop of a settlement, at the storage that it is known to start from.
  loop_start :
      (last id : ℕ) (s s1 s2 s3 : State W) (w : W) (r : ℤ × List Symbol) (out : ℤ) (u : State W)
      → s1 ≡ record s { world = w }
      → s2 ≡ s1
      → id ≡ next_id s2
      → s3 ≡ record s2 { nonce = some (next_id s2) }
      → out ≡ r.0
      → execute_from tokens adapters env trader last id path (length path) 0 amount_in [] s3
        ≡ (ok r, u)
      → execute_from tokens adapters env trader last
          (next_id s)
          path
          (length path)
          0
          amount_in
          []
          (record s { nonce = some (next_id s); world = w })
        ≡ (ok (out, r.1), u)
  loop_start last id s s1 s2 s3 w r out u f1 f2 g f3 o e = cc

  -- The calls behind a settlement that goes through: the pull of the input, and the execution loop.
  pub settlement-calls :
      (s : State W) (out : ℤ) (t : State W)
      → s.admin ≢ none
      → settlement tokens adapters env trader token_in token_out amount_in amount_out_min path s
        ≡ (ok out, t)
      → (w : W) × (last : ℕ) × (protocols : List Symbol) × (u : State W) × (tokens.transfer s.world
            env.contract token_in trader env.contract amount_in
          ≡ some w)
        × (length path ≡ suc last)
        × (execute_from tokens adapters env trader last
              (next_id s)
              path
              (length path)
              0
              amount_in
              []
              (record s { nonce = some (next_id s); world = w })
            ≡ (ok (out, protocols), u))
        × (u.world ≡ t.world)
  unfolding settlement
  settlement-calls s out t a h =
      let pull = token_transfer tokens adapters env token_in trader env.contract amount_in in
      let rest : Contract (State W) RouterError ℤ =
        ok_or (checked_pred (length path)) empty_path
        >>= (run_hops tokens adapters env trader token_in token_out amount_in amount_out_min
            path) in
      let (x, s1, e1, h1) = bind_inv pull (λ _. rest) s h in
      let (w, moved, f1) =
        transferred tokens adapters env token_in trader env.contract amount_in s {x = x} e1 in
      let (last, s2, e2, h2) =
        bind_inv (ok_or (checked_pred (length path)) empty_path)
          (run_hops tokens adapters env trader token_in token_out amount_in amount_out_min path) s1
          h1 in
      let (hops, f2) = counted (length path) last s1 s2 e2 in
      let (id, s3, e3, h3) =
        bind_inv next_nonce
          ((with_id tokens adapters env trader token_in token_out amount_in amount_out_min path)
            last)
          s2 h2 in
      let (g, f3) =
        allocated s2 id s3 (λ none_set. a (sym (ap (λ z. z.admin) (f2 ∙ f1)) ∙ none_set)) e3 in
      let loop =
        execute_from tokens adapters env trader last id path (length path) 0 amount_in [] in
      let (r, u, e4, h4) =
        bind_inv loop
          ((finish tokens adapters env trader token_in token_out amount_in amount_out_min path) id)
          s3 h3 in
      let (o, k) = finish-ok id r u h4 in
      (w, last, r.1, u, moved, hops, loop_start last id s s1 s2 s3 w r out u f1 f2 g f3 o e4, sym k)
