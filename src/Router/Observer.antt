-- ===== src/Router/Observer.antt =====
-- What an indexer makes of the router's events (contracts/router/src/lib.rs), as docs/events.md has it do.
use stellariq_contract.Prelude.{
  ℕ, ◌+◌, ◌≡◌, refl, Bool, Option, some, List, [], ◌∷◌, ◌++◌, ℤ, Map, put, delete, string_eq, arith,
  length, length-append, ◌≤◌,
}
use stellariq_contract.Soroban.{Address, Symbol, Hash}
use stellariq_contract.Interfaces.{
  max_hops, SwapStep, Event, swap_executed, hop_executed, initialized, admin_changed, pause_changed,
  protocol_set, protocol_removed, upgraded,
}
use stellariq_contract.Router.Storage.{State}
use stellariq_contract.Router.Spec.{hop_records}

-- What an observer of the events knows.
pub record View : Type 0 where
  pub admin : Option Address
  pub paused : Option Bool
  pub nonce : Option ℕ
  pub protocols : Map Symbol Address
  pub code : Hash

abbrev pub view_of : {W : Type 0} → State W → View
view_of s = record {
  admin = s.admin;
  paused = s.paused;
  nonce = s.nonce;
  protocols = s.protocols;
  code = s.code;
}

-- How an event changes what is known.
abbrev pub observe : Event → View → View
observe (swap_executed x) v = record v { nonce = some x.execution_id }
observe (hop_executed _) v = v
observe (initialized admin _) v = record v {
  admin = some admin;
  paused = some Bool.false;
  nonce = some 0;
}
observe (admin_changed _ new_admin _) v = record v { admin = some new_admin }
observe (pause_changed _ halted _) v = record v { paused = some halted }
observe (protocol_set protocol adapter _) v = record v {
  protocols = put protocol adapter v.protocols;
}
observe (protocol_removed protocol _) v = record v { protocols = delete protocol v.protocols }
observe (upgraded _ wasm_hash _) v = record v { code = wasm_hash }

unfoldable pub replay : List Event → View → View
replay [] v = v
replay (e ∷ es) v = replay es (observe e v)

pub replay-append : (es fs : List Event) (v : View) → replay (es ++ fs) v ≡ replay fs (replay es v)
unfolding replay
replay-append [] fs v = refl
replay-append (e ∷ es) fs v = replay-append es fs (observe e v)

pub replay-hop_records :
    (id : ℕ) (trader : Address) (i : ℕ) (amount : ℤ) (path : List SwapStep) (amounts : List ℤ)
    (v : View)
    → replay (hop_records id trader i amount path amounts) v ≡ v
unfolding replay
replay-hop_records id trader i amount [] amounts v = refl
replay-hop_records id trader i amount (x ∷ path) [] v = refl
replay-hop_records id trader i amount (x ∷ path) (a ∷ amounts) v =
    replay-hop_records id trader (i + 1) a path amounts v

pub length-hop_records :
    (id : ℕ) (trader : Address) (i : ℕ) (amount : ℤ) (path : List SwapStep) (amounts : List ℤ)
    → length (hop_records id trader i amount path amounts) ≤ length path
length-hop_records id trader i amount [] amounts = omega arith
length-hop_records id trader i amount (x ∷ path) [] = omega arith
length-hop_records id trader i amount (x ∷ path) (a ∷ amounts) =
    let rest = length-hop_records id trader (i + 1) a path amounts in omega arith

pub block_bounded :
    (hops : List Event) (e : Event) (n : ℕ)
    → length hops ≤ n
    → n ≤ max_hops
    → length (hops ++ (e ∷ [])) ≤ max_hops + 1
block_bounded hops e n h k = omega (arith, length-append hops (e ∷ []))
