-- ===== src/Router/Completion.antt =====
-- When `Router::swap` returns (contracts/router/src/lib.rs): the calls of other contracts that must go
-- through, as a relation on the state of these contracts alone, and that they are enough.
use stellariq_contract.Prelude.{
  ℕ, zero, suc, ◌≢◌, ◌+◌, ◌-◌, ◌^◌, ◌<◌, ◌≡◌, refl, sym, subst₂, ◌∙◌, some, none, List, [], ◌∷◌,
  ◌++◌, map, append_assoc, append-nil, length, IsFrom, IsFrom-start, IsFrom-head, IsFrom-tail, ℤ,
  ◌≤ℤ◌, checked_sub, Map, arith,
}
use stellariq_contract.Soroban.{Address, Symbol, Env, Tokens, Outcome, ok, bind_ok}
use stellariq_contract.Interfaces.{RouterError, SwapStep, Adapters, swap_executed}
use stellariq_contract.Router.Storage.{State, next_nonce}
use stellariq_contract.Router.Swap.{
  token_transfer, adapter_swap, deliver, execute_hop, execute_from, settlement, swap, checked_pred,
}
use stellariq_contract.Router.Spec.{final_amount, hop_records}
use stellariq_contract.Router.Hops.{record_of}
use stellariq_contract.Router.Preflight.{HasTerms, HasRoute}
use stellariq_contract.Router.Settlement.{next_id, summary, settled}
use stellariq_contract.Router.Safety.{swap_proceeds}
use stellariq_contract.Router.Runs.{HopGoes, Runs, arrived, hop}

module _ {W : Type 0} (tokens : Tokens W) (adapters : Adapters W) (env : Env) (trader : Address)
    (last execution_id : ℕ) where
  hop_goes :
      (i : ℕ) (x : SwapStep) (amount a : ℤ) (s : State W) (w : W)
      → HopGoes tokens adapters env s.protocols trader last i x amount s.world a w
      → execute_hop tokens adapters env trader last execution_id i x amount s ≡ (
        ok a,
        record s {
          events =
              s.events
              ++ (record_of tokens adapters env trader last execution_id i x amount a ∷ []);
          world = w;
        },
      )
  unfolding execute_hop token_transfer deliver adapter_swap checked_sub
  hop_goes i x amount a s w h = ground arith

  -- The storage after these hops.
  abbrev ran : ℕ → List SwapStep → ℤ → List ℤ → State W → W → State W
  ran i path amount amounts s w = record s {
    events = s.events ++ hop_records execution_id trader i amount path amounts;
    world = w;
  }

  abbrev Goes :
      ℕ
      → List SwapStep
      → ℤ
      → List Symbol
      → State W
      → List ℤ
      → W
      → Outcome RouterError (ℤ × List Symbol) × State W
      → Type 0
  Goes i path amount protocols s amounts w r = r ≡ (
    ok (final_amount amount amounts, protocols ++ map (λ x. x.protocol) path),
    ran i path amount amounts s w,
  )

  module _ (path : List SwapStep) where
    loop-Goes :
        (registry : Map Symbol Address) (w : W) (i : ℕ) (rest : List SwapStep) (amount : ℤ)
        (protocols : List Symbol) (s : State W) (start : W) (amounts : List ℤ)
        → s.protocols ≡ registry
        → s.world ≡ start
        → IsFrom path i rest
        → Runs tokens adapters env registry trader last i rest amount start amounts w
        → Goes i rest amount protocols s amounts w (
            execute_from tokens adapters env trader last execution_id path
              (length rest)
              i
              amount
              protocols
              s)
    unfolding execute_from
    loop-Goes registry w i rest amount protocols s start amounts p q h arrived =
        ground (arith, append-nil protocols, append-nil s.events, q)
    loop-Goes registry w i rest amount protocols s start amounts p q h
          (hop {x = x} {path = more} {a = a} {amounts = outs} {w1 = w1} goes runs) =
        let s1 : State W = record s {
          events =
              s.events
              ++ (record_of tokens adapters env trader last execution_id i x amount a ∷ []);
          world = w1;
        } in
        let first = hop_goes i x amount a s w1 (
          subst₂ (λ known w0. HopGoes tokens adapters env known trader last i x amount w0 a w1)
            (sym p) (sym q) goes) in
        let next =
          loop-Goes registry w (i + 1) more a (protocols ++ (x.protocol ∷ [])) s1 w1 outs p refl
            (IsFrom-tail path i x more h) runs in
        rw (IsFrom-head path i x more h) (
          bind_ok (Goes i (x ∷ more) amount protocols s (a ∷ outs) w)
            (execute_hop tokens adapters env trader last execution_id i x amount)
            (λ out.
              execute_from tokens adapters env trader last execution_id path (length more) (i + 1)
                out (protocols ++ (x.protocol ∷ [])))
            s a s1 first
            (next
              ∙ ground (
                arith,
                append_assoc protocols (x.protocol ∷ []) (map (λ y. y.protocol) more),
                append_assoc s.events
                    (record_of tokens adapters env trader last execution_id i x amount a ∷ [])
                    (hop_records execution_id trader (i + 1) a more outs),
              )))

pred-some : (n : ℕ) → 0 < n → checked_pred n ≡ some (n - 1)
pred-some zero h = absurd (omega (arith, h))
pred-some (suc n) h = ground arith

module _ {W : Type 0} (tokens : Tokens W) (adapters : Adapters W) (env : Env)
    (trader token_in token_out : Address) (amount_in amount_out_min : ℤ) (deadline : ℕ)
    (path : List SwapStep) (s : State W) (amounts : List ℤ) (pulled w : W) where
  settlement_goes :
      s.admin ≢ none
      → 0 < length path
      → tokens.transfer s.world env.contract token_in trader env.contract amount_in ≡ some pulled
      → next_id s < 2 ^ 64
      → Runs tokens adapters env s.protocols trader
          (length path - 1)
          0
          path
          amount_in
          pulled
          amounts
          w
      → amount_out_min ≤ℤ final_amount amount_in amounts
      → settlement tokens adapters env trader token_in token_out amount_in amount_out_min path s ≡ (
        ok (final_amount amount_in amounts),
        settled tokens adapters env trader token_in token_out amount_in amount_out_min path s
            amounts w,
      )
  unfolding settlement token_transfer next_nonce
  settlement_goes set_up nonempty moved fits runs enough =
      let start : State W = record s { nonce = some (next_id s); world = pulled } in
      let loop =
        loop-Goes tokens adapters env trader (length path - 1) (next_id s) path s.protocols w 0 path
          amount_in [] start pulled amounts refl refl (IsFrom-start path) runs in
      let pred : checked_pred (length path) ≡ some (length path - 1) =
        pred-some (length path) nonempty in
      ground (
        arith,
        loop,
        pred,
        append_assoc s.events (hop_records (next_id s) trader 0 amount_in path amounts) (
            swap_executed (
              summary tokens adapters env trader token_in token_out amount_in amount_out_min path
                (next_id s) (final_amount amount_in amounts))
            ∷ []),
      )

  -- `swap` returns, with the last amount and the storage that its record describes, where all checks
  -- pass, the pull of the input goes through, a `u64` can hold the next execution id, the hops go
  -- through with these amounts, and the last amount is at least the global minimum.
  pub swap_returns :
      HasTerms tokens adapters env trader amount_in amount_out_min deadline path s
      → HasRoute tokens adapters env trader token_in token_out amount_in path s
      → tokens.transfer s.world env.contract token_in trader env.contract amount_in ≡ some pulled
      → next_id s < 2 ^ 64
      → Runs tokens adapters env s.protocols trader
          (length path - 1)
          0
          path
          amount_in
          pulled
          amounts
          w
      → amount_out_min ≤ℤ final_amount amount_in amounts
      → swap tokens adapters env trader token_in token_out amount_in amount_out_min deadline path s
        ≡ (
          ok (final_amount amount_in amounts),
          settled tokens adapters env trader token_in token_out amount_in amount_out_min path s
              amounts w,
        )
  swap_returns terms route moved fits runs enough =
      swap_proceeds tokens adapters env trader token_in token_out amount_in amount_out_min deadline
        path s terms route
      ∙ settlement_goes terms.initialized terms.nonempty moved fits runs enough
