-- ===== src/Scenario/RouterWitnesses.antt =====
-- The theorems on the router (contracts/router/src/lib.rs), applied to runs on the network of
-- `Scenario.Network`.
use stellariq_contract.Prelude.{
  ◌^◌, ◌<◌, ◌≡◌, ◌∙◌, refl, true, false, List, [], ◌++◌, ◌==◌, ℤ, pos, ◌≤ℤ◌, ◌+ℤ◌, ◌-ℤ◌, arith,
  if◌then◌else◌, string_eq, nat_eq, not, ◌&&◌,
}
use stellariq_contract.Soroban.{Env, ok, err, trap, unwrap_or, has, Symbol}
use stellariq_contract.Interfaces.{empty_path, protocol_not_found, invalid_admin}
use stellariq_contract.Router
use stellariq_contract.Router.Spec.{Fills, final_amount, first_fault}
use stellariq_contract.Router.Loops.{validate_path-eq, fault_outcome}
use stellariq_contract.Router.Preflight.{HasTerms, HasRoute}
use stellariq_contract.Router.Settlement.{next_id, settled}
use stellariq_contract.Router.Outcomes.{swap_settles}
use stellariq_contract.Router.Safety.{swap_keeps_custody, swap_pays_trader}
use stellariq_contract.Router.Bystanders.{swap_spares_bystanders}
use stellariq_contract.Soroban.Sep41.{when}
use stellariq_contract.Router.Entries.{
  set_paused_entry, set_protocol_entry, swap_entry, initialize_entry, call, upgrade_entry, Entry,
  perform, Reach, here, invoked, deployed,
}
use stellariq_contract.Router.Governance.{
  SameConfig, config_needs_admin, perform-code, call-extensions, extension_of,
}
use stellariq_contract.Router.Log.{Log, swap_ids, one_to}
use stellariq_contract.Router.History.{reachable-Log, reachable_ids}
use stellariq_contract.Router.Observer.{replay, view_of}
use stellariq_contract.Router.Replay.{Told, perform-Told, reachable_replay}
use stellariq_contract.Router.Registry.{
  get_protocol-set_protocol, get_protocol-remove_protocol, get_admin-set_admin,
}
use stellariq_contract.Scenario.Network.{
  Others, admin, trader, adapter_id, router_id, token_a, token_b, token_c, tokens, adapters, env,
  router_with,
}
use stellariq_contract.Scenario.TwoHops.{funded, two_hops}
use stellariq_contract.Scenario.Facts.{
  funds, tokens-IsLedger, adapters-IsConfined, router-IsApart, trader-IsApart, after, two_hops_run,
}

abbrev ready : Router.State Others
ready = router_with funded

-- Nobody has signed.
abbrev unsigned : Env
unsigned = record env { signed = λ a. false }

swap_settles_example :
    HasTerms tokens adapters env trader (pos 1000) (pos 1400) 1000000 two_hops ready
    × HasRoute tokens adapters env trader token_a token_c (pos 1000) two_hops ready
    × ((amounts : List ℤ) × Fills two_hops amounts
        × (pos 1500 ≡ final_amount (pos 1000) amounts)
        × (pos 1400 ≤ℤ pos 1500)
        × (next_id ready < 2 ^ 64)
        × (after
            ≡ settled tokens adapters env trader token_a token_c
                (pos 1000)
                (pos 1400)
                two_hops
                ready
                amounts
                after.world))
swap_settles_example =
    swap_settles tokens adapters env trader token_a token_c (pos 1000) (pos 1400) 1000000 two_hops
      ready (pos 1500) after two_hops_run

swap_keeps_custody_example :
    funds ready.world token_b router_id ≡ funds after.world token_b router_id
swap_keeps_custody_example =
    swap_keeps_custody tokens adapters env funds tokens-IsLedger true trader token_a token_c
      (pos 1000) (pos 1400) 1000000 two_hops ready after (pos 1500) two_hops_run (ground arith)
      (adapters-IsConfined router_id) router-IsApart token_b

swap_pays_trader_example :
    funds ready.world token_c trader
      -ℤ when (token_c == token_a) (pos 1000)
      +ℤ when (token_c == token_c) (pos 1500)
    ≡ funds after.world token_c trader
swap_pays_trader_example =
    swap_pays_trader tokens adapters env funds tokens-IsLedger true trader token_a token_c
      (pos 1000) (pos 1400) 1000000 two_hops ready after (pos 1500) two_hops_run (ground arith)
      (adapters-IsConfined trader) trader-IsApart token_c

empty_run :
    Router.swap tokens adapters env trader token_a token_c (pos 1000) (pos 1400) 1000000 [] ready
    ≡ (err empty_path, ready)
unfolding Router.swap Router.check_terms
empty_run = refl

validate_path-eq_example :
    Router.validate_path token_a token_c two_hops ready
    ≡ (fault_outcome (first_fault token_a token_c two_hops), ready)
validate_path-eq_example = validate_path-eq two_hops ready token_a token_c

config_needs_admin_example :
    SameConfig ready (perform tokens adapters unsigned (set_paused_entry true) ready)
config_needs_admin_example =
    config_needs_admin tokens adapters unsigned (set_paused_entry true) ready admin refl refl

call-extensions_example :
    ((e : Entry) (t : Router.State Others) (x : Unit {0})
      → call tokens adapters env e ready ≡ (ok x, t)
      → t.extensions ≡ ready.extensions ++ extension_of tokens adapters env e)
    × ((Router.get_admin ready).1 ≡ ready)
    × ((Router.is_paused ready).1 ≡ ready)
    × ((q : Symbol) → (Router.get_protocol q ready).1 ≡ ready)
    × ((Router.version ready).1 ≡ ready)
call-extensions_example = call-extensions tokens adapters env ready

-- A router that is set up, swaps once, and gets other code.
abbrev fresh : Router.State Others
fresh = deployed 0 funded

abbrev started : Router.State Others
started = perform tokens adapters env (initialize_entry admin) fresh

abbrev listed : Router.State Others
listed = perform tokens adapters env (set_protocol_entry "test" adapter_id) started

abbrev trade : Entry
trade = swap_entry trader token_a token_c (pos 1000) (pos 1400) 1000000 two_hops

abbrev swapped : Router.State Others
swapped = perform tokens adapters env trade listed

abbrev lived : Router.State Others
lived = perform tokens adapters env (upgrade_entry 1) swapped

listed_code : listed.code ≡ 0
listed_code =
    perform-code tokens adapters env (set_protocol_entry "test" adapter_id) started tt
    ∙ perform-code tokens adapters env (initialize_entry admin) fresh tt

lived_reached : Reach tokens adapters fresh lived
lived_reached =
    invoked env (upgrade_entry 1) (perform-code tokens adapters env trade listed tt ∙ listed_code) (
      invoked env trade listed_code (
        invoked env (set_protocol_entry "test" adapter_id)
          (perform-code tokens adapters env (initialize_entry admin) fresh tt)
          (invoked env (initialize_entry admin) refl here)))

reachable-Log_example : Log (unwrap_or lived.nonce 0) lived.events
reachable-Log_example = reachable-Log tokens adapters 0 funded lived lived_reached

reachable_ids_example :
    (swap_ids lived.events ≡ one_to (unwrap_or lived.nonce 0)) × (unwrap_or lived.nonce 0 < 2 ^ 64)
reachable_ids_example = reachable_ids tokens adapters 0 funded lived lived_reached

get_protocol-set_protocol_example :
    let (r, t) = Router.set_protocol env "soroswap" 5 ready in
    (r ≡ ok tt)
    × ((q : Symbol)
        → (Router.get_protocol q t).0
          ≡ (if string_eq.beq "soroswap" q then ok 5 else (Router.get_protocol q ready).0))
get_protocol-set_protocol_example = get_protocol-set_protocol env ready admin "soroswap" 5 refl refl

get_protocol-remove_protocol_example :
    let (r, t) = Router.remove_protocol env "test" ready in
    (r ≡ (if has (ready.protocols "test") then ok tt else err protocol_not_found))
    × ((q : Symbol)
        → (Router.get_protocol q t).0 ≡ (
            if string_eq.beq "test" q
            then err protocol_not_found
            else (Router.get_protocol q ready).0))
get_protocol-remove_protocol_example = get_protocol-remove_protocol env ready admin "test" refl refl

get_admin-set_admin_example :
    let (r, t) = Router.set_admin env 9 ready in
    (r ≡ (if not (env.signed admin) then trap else if 9 == admin then err invalid_admin else ok tt))
    × ((Router.get_admin t).0 ≡ (if env.signed admin && not (9 == admin) then ok 9 else ok admin))
    × ((Router.is_paused t).0 ≡ (Router.is_paused ready).0)
get_admin-set_admin_example = get_admin-set_admin env ready admin 9 refl

reachable_replay_example : replay lived.events (view_of (deployed 0 funded)) ≡ view_of lived
reachable_replay_example = reachable_replay tokens adapters 0 funded lived lived_reached

-- The admin takes no part in the swap.
swap_spares_bystanders_example : funds ready.world token_a admin ≡ funds after.world token_a admin
swap_spares_bystanders_example =
    swap_spares_bystanders tokens adapters env funds tokens-IsLedger true trader admin
      (ground arith) (ground arith) (adapters-IsConfined admin) token_a token_c (pos 1000)
      (pos 1400) 1000000 two_hops ready after (pos 1500) (λ p a e. ground arith) two_hops_run
      token_a

perform-Told_example : Told ready (
    perform tokens adapters env
      (swap_entry trader token_a token_c (pos 1000) (pos 1400) 1000000 two_hops)
      ready)
perform-Told_example =
    perform-Told tokens adapters env
      (swap_entry trader token_a token_c (pos 1000) (pos 1400) 1000000 two_hops) ready
