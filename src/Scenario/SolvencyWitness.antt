-- ===== src/Scenario/SolvencyWitness.antt =====
-- A course of events on the network of `Scenario.Network` (contracts/router/src/lib.rs, contracts/
-- test-adapter/src/lib.rs): a swap, a misreport, a payment to the router, a trade that anybody makes at
-- the adapter, and another swap.
use stellariq_contract.Prelude.{
  ◌≡◌, refl, some, pos, negsuc, ◌==◌, ◌≤ℤ◌, ◌+ℤ◌, ◌-ℤ◌, ◌*ℤ◌, checked_sub, arith, nat_eq,
}
use stellariq_contract.Soroban.{Env, invoke}
use stellariq_contract.Interfaces.{AdapterCall, checked_mul_div}
use stellariq_contract.TestAdapter
use stellariq_contract.TestAdapter.Authority.{misreport_entry, apply}
use stellariq_contract.Router
use stellariq_contract.Router.Entries.{Entry, swap_entry, perform}
use stellariq_contract.Router.Governance.{perform-code}
use stellariq_contract.Composition.{call_adapter}
use stellariq_contract.Composition.Solvency.{
  Course, begun, routed, configured, traded, paid, RefusesNegative, no_drain,
}
use stellariq_contract.Scenario.Network.{
  Others, Ledger, admin, trader, router_id, token_a, token_b, token_c, pool, plain_tokens,
  plain_transfer, tokens, adapters, adapter_env, env, router_with, credit, debit,
}
use stellariq_contract.Scenario.TwoHops.{funded, two_hops}
use stellariq_contract.Scenario.Facts.{held, plain_tokens-IsLedger, router-IsApart}

abbrev trade : Entry
trade = swap_entry trader token_a token_c (pos 1000) (pos 1400) 1000000 two_hops

-- The trader signs.
abbrev signed_env : Env
signed_env = record env { signed = λ a. a == trader }

abbrev admin_env : Env
admin_env = record adapter_env { signed = λ a. a == admin }

-- The adapter sends what it makes of 10 to the router.
abbrev to_router : AdapterCall
to_router = record {
  pool = pool;
  token_in = token_a;
  token_out = token_b;
  amount_in = pos 10;
  amount_out_min = pos 0;
  recipient = router_id;
}

abbrev swapped : Router.State Others
swapped = perform tokens adapters signed_env trade (router_with funded)

abbrev misreporting : Others
misreporting = (invoke (apply admin_env (misreport_entry admin pool (pos 5000))) swapped.world).1

abbrev given : Ledger
given = credit token_a router_id 50 (debit token_a trader 50 misreporting.world)

abbrev traded_once : Others
traded_once =
    (invoke (TestAdapter.swap plain_tokens adapter_env to_router)
      (record misreporting { world = given })).1

abbrev last : Router.State Others
last = perform tokens adapters signed_env trade (record swapped { world = traded_once })

refuses_negative : RefusesNegative plain_tokens
refuses_negative m invoker token from to (pos n) m' moved = omega arith
refuses_negative m invoker token from to (negsuc n) m' moved = absurd (ground arith)

payment_goes :
    plain_transfer misreporting.world trader token_a trader router_id (pos 50) ≡ some given
unfolding call_adapter ◌+ℤ◌ ◌-ℤ◌ ◌*ℤ◌ checked_sub Router.next_nonce Router.swap Router.check_terms
    Router.check_route Router.settlement Router.validate_path Router.validate_from
    Router.check_protocols_from Router.token_transfer Router.execute_from Router.execute_hop
    Router.deliver Router.adapter_swap checked_mul_div TestAdapter.swap TestAdapter.set_misreport
    apply perform
payment_goes = refl

eventful : Course plain_tokens adapter_env held router_id (router_with funded) last
eventful =
    routed signed_env trade refl refl tt
      (perform-code tokens adapters signed_env trade (router_with funded) tt)
      (traded to_router (
        paid trader token_a trader router_id (pos 50) given (ground arith) payment_goes (
          configured admin_env (misreport_entry admin pool (pos 5000))
            (routed signed_env trade refl refl tt refl begun))))

no_drain_example :
    held (router_with funded).world.world token_b router_id
    ≤ℤ held last.world.world token_b router_id
no_drain_example =
    no_drain plain_tokens adapter_env held router_id plain_tokens-IsLedger refuses_negative
      (ground arith) router-IsApart eventful token_b

-- The payment and the trade are still there; the last swap has failed for the misreport.
router_keeps_both :
    (held last.world.world token_a router_id ≡ pos 50)
    × (held last.world.world token_b router_id ≡ pos 15)
    × (held last.world.world token_c trader ≡ pos 1500)
unfolding call_adapter ◌+ℤ◌ ◌-ℤ◌ ◌*ℤ◌ checked_sub Router.next_nonce Router.swap Router.check_terms
    Router.check_route Router.settlement Router.validate_path Router.validate_from
    Router.check_protocols_from Router.token_transfer Router.execute_from Router.execute_hop
    Router.deliver Router.adapter_swap checked_mul_div TestAdapter.swap TestAdapter.set_misreport
    apply perform
router_keeps_both = (refl, refl, refl)
