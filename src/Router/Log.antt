-- ===== src/Router/Log.antt =====
-- The shape of the router's event log (contracts/router/src/lib.rs, and the join rule of docs/events.md).
use stellariq_contract.Prelude.{
  ℕ, zero, suc, ◌+◌, ◌≡◌, refl, List, [], ◌∷◌, ◌++◌, map, ℤ, arith, append-nil,
}
use stellariq_contract.Soroban.{Address}
use stellariq_contract.Interfaces.{SwapStep, Event, SwapExecuted, swap_executed, hop_executed}
use stellariq_contract.Router.Spec.{IsRoute, Fills, final_amount, hop_records}

abbrev pub IsLifecycle : Event → Type 0
IsLifecycle (swap_executed _) = ⊥
IsLifecycle (hop_executed _) = ⊥
IsLifecycle _ = Unit

-- The records of one swap: those of its hops, and the summary.
abbrev pub swap_block : SwapExecuted → List SwapStep → List ℤ → List Event
swap_block x path amounts =
    hop_records x.execution_id x.trader 0 x.amount_in path amounts ++ (swap_executed x ∷ [])

-- A summary is that of a route and of the amounts of its hops.
pub record Sums (n : ℕ) (x : SwapExecuted) (path : List SwapStep) (amounts : List ℤ) : Type 0 where
  pub numbered : x.execution_id ≡ n
  pub routed : IsRoute x.token_in x.token_out path
  pub filled : Fills path amounts
  pub yielded : x.amount_out ≡ final_amount x.amount_in amounts
  pub listed : x.protocols ≡ map (λ y. y.protocol) path

-- A log of `n` swaps: life cycle events and whole blocks of swap records, in any order, the blocks
-- numbered from 1 on.
pub data Log : ℕ → List Event → Type 0 where
  empty_log : Log 0 []
  lifecycle :
      {n : ℕ} {es : List Event} (e : Event) → IsLifecycle e → Log n es → Log n (es ++ (e ∷ []))
  swapped :
      {n : ℕ} {es : List Event} (x : SwapExecuted) (path : List SwapStep) (amounts : List ℤ)
      → Sums (suc n) x path amounts
      → Log n es
      → Log (suc n) (es ++ swap_block x path amounts)

-- The execution ids of the summaries.
abbrev pub id_of : Event → List ℕ → List ℕ
id_of (swap_executed x) ids = x.execution_id ∷ ids
id_of _ ids = ids

abbrev pub swap_ids : List Event → List ℕ
swap_ids [] = []
swap_ids (e ∷ es) = id_of e (swap_ids es)

-- 1, 2, …, n
abbrev pub one_to : ℕ → List ℕ
one_to zero = []
one_to (suc n) = one_to n ++ (suc n ∷ [])

swap_ids-append : (es fs : List Event) → swap_ids (es ++ fs) ≡ swap_ids es ++ swap_ids fs
swap_ids-append [] fs = refl
swap_ids-append (e ∷ es) fs = ground (arith, swap_ids-append es fs)

swap_ids-hop_records :
    (id : ℕ) (trader : Address) (i : ℕ) (amount : ℤ) (path : List SwapStep) (amounts : List ℤ)
    → swap_ids (hop_records id trader i amount path amounts) ≡ []
swap_ids-hop_records id trader i amount [] amounts = refl
swap_ids-hop_records id trader i amount (x ∷ path) [] = refl
swap_ids-hop_records id trader i amount (x ∷ path) (a ∷ amounts) =
    swap_ids-hop_records id trader (i + 1) a path amounts

swap_ids-lifecycle : (e : Event) → IsLifecycle e → swap_ids (e ∷ []) ≡ []
swap_ids-lifecycle e h = ground arith

pub Log-swap_ids : {n : ℕ} {es : List Event} → Log n es → swap_ids es ≡ one_to n
Log-swap_ids empty_log = refl
Log-swap_ids (lifecycle {n = n} {es = es} e h log) = cc (
  swap_ids-append es (e ∷ []),
  swap_ids-lifecycle e h,
  append-nil (swap_ids es),
  Log-swap_ids log,
)
Log-swap_ids (swapped {n = n} {es = es} x path amounts h log) =
    let hops = hop_records x.execution_id x.trader 0 x.amount_in path amounts in
    cc (
      swap_ids-append es (swap_block x path amounts),
      swap_ids-append hops (swap_executed x ∷ []),
      swap_ids-hop_records x.execution_id x.trader 0 x.amount_in path amounts,
      h.numbered,
      Log-swap_ids log,
    )
