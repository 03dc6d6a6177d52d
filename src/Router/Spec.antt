-- ===== src/Router/Spec.antt =====
-- What the router promises of a route and of the events of a swap, stated over lists, apart from the
-- loops of contracts/router/src/lib.rs.
use stellariq_contract.Prelude.{
  ℕ, ◌+◌, ◌≡◌, ◌≢◌, not, Option, none, some, List, [], ◌∷◌, ◌==◌, if◌then◌else◌, ℤ, pos, ltb_ℤ,
  ◌≤ℤ◌, ◌<ℤ◌, Map,
}
use stellariq_contract.Soroban.{Address, Symbol}
use stellariq_contract.Interfaces.{
  RouterError, discontinuous_path, invalid_min_out, SwapStep, Event, hop_executed,
  event_schema_version,
}

-- The steps lead from one token to the other, each starts where the one before it ends, and no step
-- has a negative minimum.
abbrev pub IsRoute : Address → Address → List SwapStep → Type 0
IsRoute cursor token_out [] = cursor ≡ token_out
IsRoute cursor token_out (x ∷ path) =
    (x.token_in ≡ cursor) × (pos 0 ≤ℤ x.amount_out_min) × IsRoute x.token_out token_out path

-- The first fault of a list of steps.
abbrev pub first_fault : Address → Address → List SwapStep → Option RouterError
first_fault cursor token_out [] = if cursor == token_out then none else some discontinuous_path
first_fault cursor token_out (x ∷ path) =
    if not (x.token_in == cursor)
    then some discontinuous_path
    else if ltb_ℤ x.amount_out_min (pos 0)
    then some invalid_min_out
    else first_fault x.token_out token_out path

-- Every step's protocol has an adapter.
abbrev pub IsRegistered : Map Symbol Address → List SwapStep → Type 0
IsRegistered protocols [] = Unit
IsRegistered protocols (x ∷ path) = (protocols x.protocol ≢ none) × IsRegistered protocols path

-- One amount for each step, which is positive and covers the step's minimum.
abbrev pub Fills : List SwapStep → List ℤ → Type 0
Fills [] [] = Unit
Fills [] (_ ∷ _) = ⊥
Fills (_ ∷ _) [] = ⊥
Fills (x ∷ path) (a ∷ amounts) = (pos 0 <ℤ a) × (x.amount_out_min ≤ℤ a) × Fills path amounts

-- The amount that the last step yields.
abbrev pub final_amount : ℤ → List ℤ → ℤ
final_amount a [] = a
final_amount a (b ∷ amounts) = final_amount b amounts

-- The hop records of one swap: in route order, numbered on from `i`, each with what the hop before it
-- yielded as its input.
abbrev pub hop_records : ℕ → Address → ℕ → ℤ → List SwapStep → List ℤ → List Event
hop_records execution_id trader i amount_in [] amounts = []
hop_records execution_id trader i amount_in (x ∷ path) [] = []
hop_records execution_id trader i amount_in (x ∷ path) (a ∷ amounts) =
    hop_executed (record {
      execution_id = execution_id;
      trader = trader;
      hop_index = i;
      protocol = x.protocol;
      pool = x.pool;
      token_in = x.token_in;
      token_out = x.token_out;
      amount_in = amount_in;
      amount_out = a;
      version = event_schema_version;
    })
    ∷ hop_records execution_id trader (i + 1) a path amounts
