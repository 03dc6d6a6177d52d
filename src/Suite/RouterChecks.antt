-- ===== src/Suite/RouterChecks.antt =====
-- contracts/router/src/test.rs: what `swap` refuses before any funds move.
use stellariq_contract.Prelude.{
  ℕ, zero, suc, ◌≡◌, refl, some, List, [], ◌∷◌, pos, nat_eq, string_eq, ◌+◌,
}
use stellariq_contract.Soroban.{err}
use stellariq_contract.Interfaces.{
  SwapStep, max_hops, zero_amount, invalid_min_out, expired, empty_path, too_many_hops,
  discontinuous_path, insufficient_balance,
}
use stellariq_contract.Fixture.{deadline, step}
use stellariq_contract.Suite.Bench.{
  f, one_hop, buy, ◌▹◌, start, give, attempt, swap, swap_by, at_time,
}

abbrev ZeroAmountFails : Type 0
ZeroAmountFails = (start ▹ attempt f (buy 0 1 (one_hop (pos 1)))) ≡ some (err zero_amount)

abbrev NonPositiveMinOutFails : Type 0
NonPositiveMinOutFails =
    (start ▹ attempt f (buy 1000 0 (one_hop (pos 1)))) ≡ some (err invalid_min_out)

abbrev ExpiredDeadlineFails : Type 0
ExpiredDeadlineFails =
    (start ▹ attempt (at_time (deadline + 1)) (buy 1000 900 (one_hop (pos 1)))) ≡ some (err expired)

abbrev EmptyPathFails : Type 0
EmptyPathFails = (start ▹ attempt f (buy 1000 900 [])) ≡ some (err empty_path)

-- `MAX_HOPS + 1` steps from a token to itself.
abbrev loops : ℕ → List SwapStep
loops zero = []
loops (suc n) = step f f.token_a f.token_a (pos 0) ∷ loops n

abbrev TooManyHopsFails : Type 0
TooManyHopsFails =
    (start ▹ attempt f (swap f.token_a f.token_a (pos 1000) (pos 900) (loops (max_hops + 1))))
    ≡ some (err too_many_hops)

abbrev DiscontinuousPathFails : Type 0
DiscontinuousPathFails =
    let broken = step f f.token_a f.token_b (pos 1) ∷ step f f.token_c f.token_b (pos 1) ∷ [] in
    (start ▹ attempt f (buy 1000 900 broken)) ≡ some (err discontinuous_path)

abbrev EndpointMismatchFails : Type 0
EndpointMismatchFails =
    (start ▹ attempt f (buy 1000 900 (step f f.token_a f.token_c (pos 1) ∷ [])))
    ≡ some (err discontinuous_path)

abbrev InsufficientBalanceFails : Type 0
InsufficientBalanceFails =
    (start
      ▹ give f.token_a f.trader 500
      ▹ give f.token_b f.adapter_id 10000
      ▹ attempt f (buy 1000 900 (one_hop (pos 1))))
    ≡ some (err insufficient_balance)

terms_tests_pass : ZeroAmountFails × NonPositiveMinOutFails × ExpiredDeadlineFails × EmptyPathFails
unfolding start swap_by
terms_tests_pass = (refl, refl, refl, refl)

route_tests_pass :
    TooManyHopsFails × DiscontinuousPathFails × EndpointMismatchFails × InsufficientBalanceFails
unfolding start swap_by
route_tests_pass = (refl, refl, refl, refl)
