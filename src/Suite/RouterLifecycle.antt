-- ===== src/Suite/RouterLifecycle.antt =====
-- contracts/router/src/test.rs: life cycle, admin, pause and registry.
use stellariq_contract.Prelude.{◌≡◌, refl, true, false, some, [], ◌∷◌, pos, nat_eq, string_eq}
use stellariq_contract.Soroban.{err}
use stellariq_contract.Interfaces.{
  SwapStep, already_initialized, not_initialized, invalid_admin, protocol_not_found, paused,
}
use stellariq_contract.Router
use stellariq_contract.Suite.Bench.{
  f, another, one_hop, buy, ◌▹◌, start, fund, call, ask, attempt, swap_by, unsigned, registered,
  is_err,
}

abbrev InitializeSetsAdminAndDefaults : Type 0
InitializeSetsAdminAndDefaults =
    ((start ▹ ask f (λ env. Router.get_admin)) ≡ some f.admin)
    × ((start ▹ ask f (λ env. Router.is_paused)) ≡ some false)
    × ((start ▹ ask f (λ env. Router.version)) ≡ some Router.cargo_pkg_version)

abbrev InitializeTwiceFails : Type 0
InitializeTwiceFails =
    (start ▹ attempt f (λ env. Router.initialize env f.admin)) ≡ some (err already_initialized)

abbrev UseBeforeInitializeFails : Type 0
UseBeforeInitializeFails =
    (attempt f (λ env. Router.get_admin) registered ≡ some (err not_initialized))
    × (attempt f (λ env. Router.is_paused) registered ≡ some (err not_initialized))
    × (attempt f (λ env. Router.set_paused env true) registered ≡ some (err not_initialized))

lifecycle_tests_pass :
    InitializeSetsAdminAndDefaults × InitializeTwiceFails × UseBeforeInitializeFails
unfolding start Router.initialize Router.get_admin Router.is_paused Router.set_paused
lifecycle_tests_pass = ((refl, refl, refl), refl, (refl, refl, refl))

abbrev SetAdminRotatesAndNewAdminGoverns : Type 0
SetAdminRotatesAndNewAdminGoverns =
    let rotated = start ▹ call f (λ env. Router.set_admin env another) in
    ((rotated ▹ ask f (λ env. Router.get_admin)) ≡ some another)
    × ((rotated ▹ call f (λ env. Router.set_paused env true) ▹ ask f (λ env. Router.is_paused))
        ≡ some true)

abbrev SetAdminToSelfIsInvalid : Type 0
SetAdminToSelfIsInvalid =
    (start ▹ attempt f (λ env. Router.set_admin env f.admin)) ≡ some (err invalid_admin)

abbrev UnauthorizedAdminCallFails : Type 0
UnauthorizedAdminCallFails =
    let initialized = call unsigned (λ env. Router.initialize env f.admin) registered in
    ((initialized ▹ ask unsigned (λ env. Router.get_admin)) ≡ some f.admin)
    × (is_err (initialized ▹ attempt unsigned (λ env. Router.set_paused env true)) ≡ true)
    × (is_err (initialized ▹ attempt unsigned (λ env. Router.set_admin env another)) ≡ true)

admin_tests_pass :
    SetAdminRotatesAndNewAdminGoverns × SetAdminToSelfIsInvalid × UnauthorizedAdminCallFails
unfolding start Router.initialize Router.get_admin Router.is_paused Router.set_paused
    Router.set_admin
admin_tests_pass = ((refl, refl), refl, (refl, refl, refl))

abbrev PausedRouterRejectsSwapsButAdminFnsStayLive : Type 0
PausedRouterRejectsSwapsButAdminFnsStayLive =
    let halted = start ▹ fund ▹ call f (λ env. Router.set_paused env true) in
    let resumed = halted ▹ call f (λ env. Router.set_paused env false) in
    ((halted ▹ ask f (λ env. Router.is_paused)) ≡ some true)
    × ((halted ▹ attempt f (buy 5000 4000 (one_hop (pos 1)))) ≡ some (err paused))
    × ((resumed ▹ ask f (λ env. Router.is_paused)) ≡ some false)
    × ((resumed ▹ ask f (buy 5000 4000 (one_hop (pos 1)))) ≡ some (pos 5000))

abbrev UnknownProtocolFails : Type 0
UnknownProtocolFails =
    let bad : SwapStep = record {
      protocol = "nope";
      pool = f.pool;
      token_in = f.token_a;
      token_out = f.token_b;
      amount_out_min = pos 1;
    } in
    (start ▹ fund ▹ attempt f (buy 1000 900 (bad ∷ []))) ≡ some (err protocol_not_found)

abbrev RemovedProtocolFails : Type 0
RemovedProtocolFails =
    let removed = start ▹ fund ▹ call f (λ env. Router.remove_protocol env "test") in
    ((removed ▹ attempt f (λ env. Router.get_protocol "test")) ≡ some (err protocol_not_found))
    × ((removed ▹ attempt f (buy 1000 900 (one_hop (pos 1)))) ≡ some (err protocol_not_found))

abbrev RemoveMissingProtocolFails : Type 0
RemoveMissingProtocolFails =
    (start ▹ attempt f (λ env. Router.remove_protocol env "ghost")) ≡ some (err protocol_not_found)

pause_tests_pass : PausedRouterRejectsSwapsButAdminFnsStayLive
unfolding start swap_by Router.is_paused Router.set_paused
pause_tests_pass = (refl, refl, refl, refl)

registry_tests_pass : UnknownProtocolFails × RemovedProtocolFails × RemoveMissingProtocolFails
unfolding start swap_by Router.remove_protocol Router.get_protocol
registry_tests_pass = (refl, (refl, refl), refl)
