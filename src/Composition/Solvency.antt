-- ===== src/Composition/Solvency.antt =====
-- The router, the test adapter and the token contracts over any course of events (contracts/router/src/
-- lib.rs, contracts/test-adapter/src/lib.rs): entry points of both contracts, called by anybody in any
-- order, and payments between others.
use stellariq_contract.Prelude.{
  ◌≡◌, ◌≢◌, refl, sym, subst, false, some, ℤ, pos, ◌≤ℤ◌, int_laws, arith,
}
use stellariq_contract.Soroban.{Address, Env, Tokens, Outcome, ok, err, trap, invoke}
use stellariq_contract.Soroban.Sep41.{IsLedger}
use stellariq_contract.Soroban.Payments.{never_falls}
use stellariq_contract.Interfaces.{AdapterError, AdapterCall}
use stellariq_contract.TestAdapter
use stellariq_contract.TestAdapter.Pricing.{swap_delivers-IsFloor}
use stellariq_contract.TestAdapter.Authority.{
  Setting, initialize_entry, rate_entry, fail_entry, misreport_entry, clear_entry, apply,
}
use stellariq_contract.Router
use stellariq_contract.Router.Entries.{Entry, perform}
use stellariq_contract.Router.Custody.{IsApart}
use stellariq_contract.Router.Lifetime.{IsProper, perform-IsKept}
use stellariq_contract.Composition.Wiring.{tokens_below, test_adapters}
use stellariq_contract.Composition.Confined.{tokens_below-IsLedger, test_adapters-IsConfined}

-- SEP-41: a negative amount is refused.
abbrev pub RefusesNegative : {W : Type 0} → Tokens W → Type 0
RefusesNegative {W} tokens =
    (w : W) (invoker token from to : Address) (x : ℤ) (w' : W)
    → tokens.transfer w invoker token from to x ≡ some w'
    → pos 0 ≤ℤ x

no_less_itself : (a : ℤ) → a ≤ℤ a
no_less_itself a = omega int_laws

below_twice : (a b c : ℤ) → a ≤ℤ b → b ≤ℤ c → a ≤ℤ c
below_twice a b c h k = omega (int_laws, h, k)

module _ {W : Type 0} (tokens : Tokens W) (adapter_env : Env) (funds : W → Address → Address → ℤ)
    (router : Address) where
  -- The storages that can come after `s`, where the router's entry points run while it has the code of
  -- `s`. The router signs no call of its own, and no payment is its own
  -- but those that its code makes.
  pub data Course (s : Router.State (TestAdapter.State W))
      : Router.State (TestAdapter.State W) → Type 0 where
    begun : Course s s
    routed :
        {t : Router.State (TestAdapter.State W)} (env : Env) (e : Entry)
        → env.contract ≡ router
        → env.signed router ≡ false
        → IsProper
            (tokens_below tokens)
            (test_adapters tokens adapter_env)
            (λ w. funds w.world)
            router
            e
        → t.code ≡ s.code
        → Course s t
        → Course s (perform (tokens_below tokens) (test_adapters tokens adapter_env) env e t)
    configured :
        {t : Router.State (TestAdapter.State W)} (env : Env) (e : Setting)
        → Course s t
        → Course s (record t { world = (invoke (apply env e) t.world).1 })
    traded :
        {t : Router.State (TestAdapter.State W)} (call : AdapterCall)
        → Course s t
        → Course s
            (record t { world = (invoke (TestAdapter.swap tokens adapter_env call) t.world).1 })
    paid :
        {t : Router.State (TestAdapter.State W)} (invoker token from to : Address) (x : ℤ) (w : W)
        → router ≢ from
        → tokens.transfer t.world.world invoker token from to x ≡ some w
        → Course s t
        → Course s (record t { world = record t.world { world = w } })

  -- No registered adapter is the router, and no balance of it is below that of `s`.
  record IsSolvent (s t : Router.State (TestAdapter.State W)) : Type 0 where
    apart : IsApart router t
    no_less : (u : Address) → funds s.world.world u router ≤ℤ funds t.world.world u router

  settings_move_nothing :
      (env : Env) (e : Setting) (w : TestAdapter.State W)
      → (invoke (apply env e) w).1.world ≡ w.world
  unfolding apply TestAdapter.initialize TestAdapter.set_rate TestAdapter.set_fail
      TestAdapter.set_misreport TestAdapter.clear_misreport
  settings_move_nothing env (initialize_entry a) w = ground arith
  settings_move_nothing env (rate_entry a pool num denom) w = ground arith
  settings_move_nothing env (fail_entry a pool flag) w = ground arith
  settings_move_nothing env (misreport_entry a pool reported) w = ground arith
  settings_move_nothing env (clear_entry a pool) w = ground arith

  module _ (ledger : IsLedger tokens funds) (refuses : RefusesNegative tokens)
      (other : router ≢ adapter_env.contract) where
    payment_takes_nothing :
        (w w' : W) (invoker token from to : Address) (x : ℤ)
        → router ≢ from
        → tokens.transfer w invoker token from to x ≡ some w'
        → (u : Address) → funds w u router ≤ℤ funds w' u router
    payment_takes_nothing w w' invoker token from to x not_payer moved u =
        never_falls tokens funds ledger w w' invoker token from to x moved u router not_payer
          (refuses w invoker token from to x w' moved)

    trade_takes_nothing :
        (call : AdapterCall) (w : TestAdapter.State W)
        (r : Outcome AdapterError ℤ × TestAdapter.State W)
        → TestAdapter.swap tokens adapter_env call w ≡ r
        → (u : Address) → funds w.world u router ≤ℤ funds (invoke (λ _. r) w).1.world u router
    trade_takes_nothing call w (ok v, w') served u =
        let (out, _, (moved, _, _)) = swap_delivers-IsFloor tokens adapter_env call w v w' served in
        payment_takes_nothing w.world w'.world adapter_env.contract call.token_out
          adapter_env.contract call.recipient out other moved u
    trade_takes_nothing call w (err e, w') served u = no_less_itself (funds w.world u router)
    trade_takes_nothing call w (trap, w') served u = no_less_itself (funds w.world u router)

    Course-IsSolvent :
        {s t : Router.State (TestAdapter.State W)} → IsApart router s → Course s t → IsSolvent s t
    Course-IsSolvent {s} apart begun = record {
      apart = apart;
      no_less = λ u. no_less_itself (funds s.world.world u router);
    }
    Course-IsSolvent {s} apart (routed {t} env e at silent proper own r) =
        let before = Course-IsSolvent apart r in
        let step =
          perform-IsKept (tokens_below tokens) (test_adapters tokens adapter_env)
            (λ w. funds w.world) router (tokens_below-IsLedger tokens adapter_env funds ledger)
            (test_adapters-IsConfined tokens adapter_env funds ledger router) env at silent e t
            proper before.apart in
        record {
          apart = step.apart;
          no_less =
              λ u. subst (λ z. funds s.world.world u router ≤ℤ z) (step.same u) (before.no_less u);
        }
    Course-IsSolvent {s} apart (configured {t} env e r) =
        let before = Course-IsSolvent apart r in
        record {
          apart = before.apart;
          no_less = λ u.
              subst (λ z. funds s.world.world u router ≤ℤ funds z u router)
                (sym (settings_move_nothing env e t.world)) (before.no_less u);
        }
    Course-IsSolvent {s} apart (traded {t} call r) =
        let before = Course-IsSolvent apart r in
        record {
          apart = before.apart;
          no_less = λ u.
              below_twice (funds s.world.world u router) (funds t.world.world u router) _
                (before.no_less u) (trade_takes_nothing call t.world _ refl u);
        }
    Course-IsSolvent {s} apart (paid {t} invoker token from to x w not_payer moved r) =
        let before = Course-IsSolvent apart r in
        record {
          apart = before.apart;
          no_less = λ u.
              below_twice (funds s.world.world u router) (funds t.world.world u router) _
                (before.no_less u)
                (payment_takes_nothing t.world.world w invoker token from to x not_payer moved u);
        }

    -- Where the tokens keep to SEP-41 and refuse negative amounts, nobody can take from the router:
    -- while it runs the code that it starts with (an `upgrade` can only be the last call of it), and
    -- whatever entry points of the router and of the test adapter anybody calls, in any order, and
    -- whatever others pay in between, no balance of the router ever falls. The router signs nothing, and is
    -- neither the adapter nor registered as one.
    pub no_drain :
        {s t : Router.State (TestAdapter.State W)}
        → IsApart router s
        → Course s t
        → (u : Address) → funds s.world.world u router ≤ℤ funds t.world.world u router
    no_drain apart course = (Course-IsSolvent apart course).no_less
