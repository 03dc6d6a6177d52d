-- ===== src/Scenario/TwoHops.antt =====
-- The route of `two_hop_swap_chains_amounts_across_pools` (contracts/router/src/test_aggregation.rs),
-- and the network of `Scenario.Network` with the funds for it.
use stellariq_contract.Prelude.{[], ◌∷◌, List, pos, put, nat_eq}
use stellariq_contract.Interfaces.{SwapStep}
use stellariq_contract.Scenario.Network.{
  Others, trader, adapter_id, token_a, token_b, token_c, pool, pool2, no_funds, credit, others,
  step_on,
}

abbrev pub funded : Others
funded = record others {
  rate = put pool (pos 3, pos 2) others.rate;
  world =
      credit token_a trader 10000
        (credit token_b adapter_id 20000 (credit token_c adapter_id 20000 no_funds));
}

abbrev pub two_hops : List SwapStep
two_hops = step_on pool token_a token_b (pos 1400) ∷ step_on pool2 token_b token_c (pos 1400) ∷ []
