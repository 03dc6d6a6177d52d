-- ===== src/Scenario/OtherWitnesses.antt =====
-- The theorems on interfaces/src/lib.rs, contracts/test-adapter and contracts/example, applied to concrete calls.
use stellariq_contract.Prelude.{
  ℤ, ◌+◌, ◌^◌, ◌≡◌, refl, false, some, pos, ◌≤ℤ◌, ◌+ℤ◌, ◌-ℤ◌, ◌*ℤ◌, arith, if◌then◌else◌, nat_eq,
  ltb, pair_eq, checked_mul, checked_div,
}
use stellariq_contract.Soroban.{Env, unwrap_or, ok, trap, invoke, ◌>>◌}
use stellariq_contract.Interfaces.{AdapterCall, checked_mul_div, min_out_with_slippage}
use stellariq_contract.Interfaces.Rates.{
  Exact, checked_mul_div-Exact, SlippageVerdict, min_out_bounds,
}
use stellariq_contract.TestAdapter
use stellariq_contract.TestAdapter.Pricing.{IsServed, SwapPrices, swap_prices, rate_of}
use stellariq_contract.TestAdapter.Authority.{swap_entry, call, Leaves, apply_needs_admin}
use stellariq_contract.Example
use stellariq_contract.Example.Counter.{
  blank as blank_example, increments, increments-count, counted,
}
use stellariq_contract.Scenario.Network.{
  admin, trader, adapter_id, token_a, token_b, pool, plain_tokens, credit, adapter_env, Others,
  Ledger,
}
use stellariq_contract.Scenario.TwoHops.{funded}

checked_mul_div-Exact_example :
    Exact (pos 1000) (pos 3) (pos 2) (checked_mul_div (pos 1000) (pos 3) (pos 2))
checked_mul_div-Exact_example = checked_mul_div-Exact (pos 1000) (pos 3) (pos 2)

one_percent : min_out_with_slippage (pos 10000) (pos 100) ≡ some (pos 9900)
unfolding min_out_with_slippage checked_mul_div checked_mul checked_div ◌-ℤ◌ ◌*ℤ◌
one_percent = refl

two_percent : min_out_with_slippage (pos 10000) (pos 200) ≡ some (pos 9800)
unfolding min_out_with_slippage checked_mul_div checked_mul checked_div ◌-ℤ◌ ◌*ℤ◌
two_percent = refl

min_out_bounds_example :
    SlippageVerdict (pos 10000) (pos 100) (min_out_with_slippage (pos 10000) (pos 100))
min_out_bounds_example = min_out_bounds (pos 10000) (pos 100)

-- The adapter's context, where nobody signs.
abbrev unsigned : Env
unsigned = record adapter_env { signed = λ a. false }

abbrev order : AdapterCall
order = record {
  pool = pool;
  token_in = token_a;
  token_out = token_b;
  amount_in = pos 1000;
  amount_out_min = pos 0;
  recipient = trader;
}

abbrev stocked : Others
stocked = record funded { world = credit token_a adapter_id 1000 funded.world }

abbrev after_order : Others
after_order = (TestAdapter.swap plain_tokens adapter_env order stocked).1

order_run : TestAdapter.swap plain_tokens adapter_env order stocked ≡ (ok (pos 1500), after_order)
unfolding TestAdapter.swap checked_mul_div checked_mul checked_div ◌+ℤ◌ ◌-ℤ◌ ◌*ℤ◌
order_run = refl

swap_prices_example :
    ((held out : ℤ) (w : Ledger)
      → IsServed plain_tokens adapter_env order stocked
      → plain_tokens.balance stocked.world token_a adapter_id ≡ some held
      → pos 1000 ≤ℤ held
      → checked_mul_div
          (pos 1000)
          (rate_of plain_tokens adapter_env order stocked).0
          (rate_of plain_tokens adapter_env order stocked).1
        ≡ some out
      → plain_tokens.transfer stocked.world adapter_id token_b adapter_id trader out ≡ some w
      → TestAdapter.swap plain_tokens adapter_env order stocked
        ≡ (ok (unwrap_or (stocked.misreport pool) out), record stocked { world = w }))
    × SwapPrices plain_tokens adapter_env order stocked
        (checked_mul_div
          (pos 1000)
          (rate_of plain_tokens adapter_env order stocked).0
          (rate_of plain_tokens adapter_env order stocked).1)
        (TestAdapter.swap plain_tokens adapter_env order stocked)
swap_prices_example = swap_prices plain_tokens adapter_env order stocked

apply_needs_admin_example :
    Leaves plain_tokens unsigned
      (swap_entry order)
      stocked
      (invoke (call plain_tokens unsigned (swap_entry order)) stocked).1
apply_needs_admin_example =
    apply_needs_admin plain_tokens unsigned (swap_entry order) stocked admin refl refl

increments-count_example :
    let (r, t) = (Example.initialize "hi" >> increments 3) blank_example in
    (r ≡ ok tt)
    × (Example.count t ≡ (ok (pos 3), t))
    × (Example.greeting t ≡ (ok "hi", t))
    × (Example.increment t
        ≡ (if ltb (3 + 1) (2 ^ 31) then (ok (pos (3 + 1)), counted "hi" (3 + 1)) else (trap, t)))
increments-count_example = increments-count "hi" 3 (ground arith)
