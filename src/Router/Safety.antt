-- ===== src/Router/Safety.antt =====
-- Whose balances a `Router::swap` that returns has changed, and by how much
-- (contracts/router/src/lib.rs).
use stellariq_contract.Prelude.{
  ℕ, suc, ◌≡◌, ◌≢◌, refl, sym, ◌∙◌, subst, Bool, true, false, some, List, [], ◌∷◌, length, ◌==◌,
  IsFrom-start, ℤ, pos, ◌+ℤ◌, ◌-ℤ◌, int_laws, parts_eq, arith,
}
use stellariq_contract.Soroban.{Address, Symbol, Env, Tokens, ok}
use stellariq_contract.Interfaces.{SwapStep, Adapters}
use stellariq_contract.Router.Storage.{State}
use stellariq_contract.Router.Swap.{execute_from, settlement, swap}
use stellariq_contract.Router.Spec.{IsRoute}
use stellariq_contract.Router.Preflight.{HasTerms, HasRoute, check_terms_pass, check_route_pass}
use stellariq_contract.Router.Settlement.{next_id}
use stellariq_contract.Router.Calls.{settlement-calls}
use stellariq_contract.Router.Outcomes.{swap_settles}
use stellariq_contract.Soroban.Sep41.{when, IsLedger}
use stellariq_contract.Router.Funds.{Holds, IsConfined}
use stellariq_contract.Router.Custody.{
  IsApart, paid_in, nothing_paid, owed, due, loop-router, loop-trader,
}

module _ {W : Type 0} (tokens : Tokens W) (adapters : Adapters W) (env : Env)
    (trader token_in token_out : Address) (amount_in amount_out_min : ℤ) (deadline : ℕ)
    (path : List SwapStep) (s : State W) where
  -- Where all checks pass, `swap` goes on to settle, with its storage as it was.
  pub swap_proceeds :
      HasTerms tokens adapters env trader amount_in amount_out_min deadline path s
      → HasRoute tokens adapters env trader token_in token_out amount_in path s
      → swap tokens adapters env trader token_in token_out amount_in amount_out_min deadline path s
        ≡ settlement tokens adapters env trader token_in token_out amount_in amount_out_min path s
  unfolding swap
  swap_proceeds terms route = ground (
    arith,
    check_terms_pass tokens adapters env trader path s amount_in amount_out_min deadline terms,
    check_route_pass tokens adapters env trader path s token_in token_out amount_in route,
  )

-- The pull of the input, and the loop after it, seen from the router and from the trader.
Holds-returned :
    (exact : Bool) (p q t c : ℤ) → q ≡ p +ℤ c -ℤ pos 0 → Holds exact (q -ℤ c) t → Holds exact p t
Holds-returned true p q t c e k = omega (int_laws, parts_eq e, parts_eq k)
Holds-returned false p q t c e k = omega (int_laws, parts_eq e)

Holds-traded :
    (exact : Bool) (p q t c g : ℤ)
    → q ≡ p +ℤ pos 0 -ℤ c
    → Holds exact (q +ℤ g) t
    → Holds exact (p -ℤ c +ℤ g) t
Holds-traded true p q t c g e k = omega (int_laws, parts_eq e, parts_eq k)
Holds-traded false p q t c g e k = omega (int_laws, parts_eq e)

owed-nonempty :
    (path : List SwapStep) (cursor u : Address) (amount : ℤ) {last : ℕ}
    → length path ≡ suc last
    → owed path cursor amount u ≡ when (u == cursor) amount
owed-nonempty [] cursor u amount h = absurd (omega (arith, h))
owed-nonempty (_ ∷ _) cursor u amount h = refl

due-nonempty :
    (path : List SwapStep) (token_out u : Address) (amount : ℤ) {last : ℕ}
    → length path ≡ suc last
    → due path token_out amount u ≡ when (u == token_out) amount
due-nonempty [] token_out u amount h = absurd (omega (arith, h))
due-nonempty (_ ∷ _) token_out u amount h = refl

module _ {W : Type 0} (tokens : Tokens W) (adapters : Adapters W) (env : Env)
    (funds : W → Address → Address → ℤ) (ledger : IsLedger tokens funds) (exact : Bool)
    (trader token_in token_out : Address) (amount_in amount_out_min : ℤ) (deadline : ℕ)
    (path : List SwapStep) (s t : State W) (out : ℤ)
    (done : swap tokens adapters env trader token_in token_out amount_in amount_out_min deadline
        path s
      ≡ (ok out, t)) where
  open ledger use {transfer_funds}

  -- The pull, and the execution loop, behind the swap.
  pub swap-calls :
      (w : W) × (last : ℕ) × (protocols : List Symbol) × (v : State W) × (tokens.transfer s.world
          env.contract token_in trader env.contract amount_in
        ≡ some w)
      × (length path ≡ suc last)
      × (execute_from tokens adapters env trader last
            (next_id s)
            path
            (length path)
            0
            amount_in
            []
            (record s { nonce = some (next_id s); world = w })
          ≡ (ok (out, protocols), v))
      × (v.world ≡ t.world)
  swap-calls =
      let (terms, route, _) =
        swap_settles tokens adapters env trader token_in token_out amount_in amount_out_min deadline
          path s out t done in
      settlement-calls tokens adapters env trader token_in token_out amount_in amount_out_min path s
        out t terms.initialized
        (sym (
            swap_proceeds tokens adapters env trader token_in token_out amount_in amount_out_min
              deadline path s terms route)
          ∙ done)

  swap-IsRoute : IsRoute token_in token_out path
  swap-IsRoute =
      (swap_settles tokens adapters env trader token_in token_out amount_in amount_out_min deadline
        path s out t done).1.route

  -- Where the tokens keep to SEP-41, the trader is not the router, and no adapter is the router or can
  -- spend its funds, a swap that returns has not lowered the router's balance of any token. Where adapter calls do not raise it
  -- either, but by their output, the balances are as before: nothing stays with the router.
  pub swap_keeps_custody :
      env.contract ≢ trader
      → IsConfined adapters funds exact env.contract
      → IsApart env.contract s
      → (u : Address) → Holds exact (funds s.world u env.contract) (funds t.world u env.contract)
  swap_keeps_custody other confined apart u =
      let (w, last, ps, v, moved, hops, run, same) = swap-calls in
      let pulled =
        transfer_funds s.world env.contract token_in trader env.contract amount_in w u env.contract
          moved in
      let pulled' =
        rw
          (
            paid_in u token_in token_in env.contract amount_in refl,
            nothing_paid u token_in trader env.contract amount_in other,
          )
          at pulled in
      let loop =
        loop-router tokens adapters env funds ledger exact trader last (next_id s) path confined
          other path 0 token_in token_out amount_in []
          (record s { nonce = some (next_id s); world = w }) (out, ps) v (IsFrom-start path)
          (omega (arith, hops)) swap-IsRoute apart run u in
      Holds-returned exact (funds s.world u env.contract) (funds w u env.contract)
        (funds t.world u env.contract) (when (u == token_in) amount_in) pulled'
        (subst
          (λ z.
            Holds exact (funds w u env.contract -ℤ when (u == token_in) amount_in)
              (funds z u env.contract))
          same (rw (owed-nonempty path token_in u amount_in hops) at loop))

  -- Where the tokens keep to SEP-41, the trader is not the router, and no adapter is the trader or can
  -- spend the trader's funds, a
  -- swap that returns has cost the trader at most `amount_in` of the input token, brought at least the
  -- returned amount of the output token, and lowered no other balance of the trader. Where adapter
  -- calls give the trader nothing but their output, these are the exact changes.
  pub swap_pays_trader :
      trader ≢ env.contract
      → IsConfined adapters funds exact trader
      → IsApart trader s
      → (u : Address)
      → Holds exact
          (funds s.world u trader -ℤ when (u == token_in) amount_in +ℤ when (u == token_out) out)
          (funds t.world u trader)
  swap_pays_trader other confined apart u =
      let (w, last, ps, v, moved, hops, run, same) = swap-calls in
      let pulled =
        transfer_funds s.world env.contract token_in trader env.contract amount_in w u trader
          moved in
      let pulled' =
        rw
          (
            paid_in u token_in token_in trader amount_in refl,
            nothing_paid u token_in env.contract trader amount_in other,
          )
          at pulled in
      let loop =
        loop-trader tokens adapters env funds ledger exact trader last (next_id s) path confined
          other path 0 token_in token_out amount_in []
          (record s { nonce = some (next_id s); world = w }) (out, ps) v (IsFrom-start path)
          (omega (arith, hops)) swap-IsRoute apart run u in
      Holds-traded exact (funds s.world u trader) (funds w u trader) (funds t.world u trader)
        (when (u == token_in) amount_in) (when (u == token_out) out) pulled'
        (subst (λ z. Holds exact (funds w u trader +ℤ when (u == token_out) out) (funds z u trader))
          same (rw (due-nonempty path token_out u out hops) at loop))
