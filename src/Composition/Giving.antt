-- ===== src/Composition/Giving.antt =====
-- A donor who converts with the router (contracts/router/src/lib.rs, `Router::swap`) and then gives
-- (contracts/donations/src/lib.rs, `Donations::donate`), as the app of the donations contract does.
use stellariq_contract.Prelude.{
  ℕ, ◌≡◌, ◌≢◌, sym, subst₂, ◌∙◌, Bool, true, false, ◌&&◌, ◌==◌, some, String, List, ℤ, ◌+ℤ◌, ◌-ℤ◌,
  arith, int_laws, parts_eq,
}
use mathlib.Core.Option.{some-injective}
use stellariq_contract.Soroban.{Address, Env, Tokens, ok}
use stellariq_contract.Soroban.Sep41.{when, IsLedger}
use stellariq_contract.Interfaces.{SwapStep, Adapters}
use stellariq_contract.Router
use stellariq_contract.Router.Funds.{IsConfined}
use stellariq_contract.Router.Custody.{IsApart}
use stellariq_contract.Router.Safety.{swap_keeps_custody, swap_pays_trader}
use stellariq_contract.Router.Bystanders.{swap_spares_bystanders}
use stellariq_contract.Donations
use stellariq_contract.Donations.Funds.{donate_moves}

-- The balances of donor and beneficiary, from the swap to the gift, under the tests of the transfers.
donor_pays :
    (a b g h : Bool) (p q r x out : ℤ)
    → g ≡ false
    → h ≡ b
    → p -ℤ when a x +ℤ when b out ≡ q
    → r ≡ q +ℤ when g out -ℤ when h out
    → r ≡ p -ℤ when a x
donor_pays a b true h p q r x out off same e k = absurd (ground arith)
donor_pays true true false true p q r x out off same e k = omega (int_laws, parts_eq e, parts_eq k)
donor_pays false true false true p q r x out off same e k = omega (int_laws, parts_eq e, parts_eq k)
donor_pays true false false false p q r x out off same e k =
    omega (int_laws, parts_eq e, parts_eq k)
donor_pays false false false false p q r x out off same e k =
    omega (int_laws, parts_eq e, parts_eq k)
donor_pays a true false false p q r x out off same e k = absurd (ground arith)
donor_pays a false false true p q r x out off same e k = absurd (ground arith)

gift_arrives :
    (b g h : Bool) (p q r out : ℤ)
    → g ≡ b
    → h ≡ false
    → p ≡ q
    → r ≡ q +ℤ when g out -ℤ when h out
    → r ≡ p +ℤ when b out
gift_arrives b g true p q r out same off e k = absurd (ground arith)
gift_arrives true true false p q r out same off e k = omega (int_laws, parts_eq e, parts_eq k)
gift_arrives false false false p q r out same off e k = omega (int_laws, parts_eq e, parts_eq k)
gift_arrives true false false p q r out same off e k = absurd (ground arith)
gift_arrives false true false p q r out same off e k = absurd (ground arith)

unmoved :
    (g h : Bool) (p q r out : ℤ)
    → g ≡ false
    → h ≡ false
    → p ≡ q
    → r ≡ q +ℤ when g out -ℤ when h out
    → r ≡ p
unmoved true h p q r out off also e k = absurd (ground arith)
unmoved false true p q r out off also e k = absurd (ground arith)
unmoved false false p q r out off also e k = omega (int_laws, parts_eq e, parts_eq k)

not_holder : (u t h k : Address) → h ≢ k → (u == t && h == k) ≡ false
not_holder u t h k other = ground arith

is_holder : (u t h : Address) → (u == t && h == h) ≡ (u == t)
is_holder u t h = ground arith

module _ {W : Type 0} (tokens : Tokens W) (adapters : Adapters W)
    (funds : W → Address → Address → ℤ) (ledger : IsLedger tokens funds) (router_env give_env : Env)
    (donor : Address) (confined : (h : Address) → IsConfined adapters funds true h) where
  gift_moves :
      (out : ℤ) (c : Donations.Campaign) (campaign_id receipt_id : ℕ) (memo : String)
      (d d' : Donations.State W) (w : W)
      → d.campaigns campaign_id ≡ some c
      → d.world ≡ w
      → Donations.donate tokens give_env donor campaign_id out memo d ≡ (ok receipt_id, d')
      → (donor ≢ c.beneficiary)
        × ((u h : Address)
            → funds d'.world u h
              ≡ funds w u h
                +ℤ when (u == c.token && h == c.beneficiary) out
                -ℤ when (u == c.token && h == donor) out)
  gift_moves out c campaign_id receipt_id memo d d' w found joined given =
      let (c', found', other, moves) =
        donate_moves tokens give_env funds ledger donor campaign_id out memo d receipt_id d'
          given in
      let same : c' ≡ c = some-injective c' c (sym found' ∙ found) in
      subst₂
        (λ (z : Donations.Campaign) (v : W).
          (donor ≢ z.beneficiary)
          × ((u h : Address)
              → funds d'.world u h
                ≡ funds v u h
                  +ℤ when (u == z.token && h == z.beneficiary) out
                  -ℤ when (u == z.token && h == donor) out))
        same joined (other, moves)

  -- A donor swaps to the campaign's token and then gives just what the swap returned. Where the tokens keep to
  -- SEP-41, adapters spend only their own funds and give only their output, and no registered adapter is the
  -- router, the donor or the beneficiary, who are three addresses: the donor has paid exactly the input of the
  -- swap and nothing else; the beneficiary has gained exactly the swap's output, in the campaign's token; and the
  -- router's balances are as before.
  pub swap_then_donate :
      (token_in : Address) (amount_in amount_out_min : ℤ) (deadline : ℕ) (path : List SwapStep)
      (s t : Router.State W) (out : ℤ) (c : Donations.Campaign) (campaign_id receipt_id : ℕ)
      (memo : String) (d d' : Donations.State W)
      → Router.swap tokens adapters router_env donor token_in c.token amount_in amount_out_min
          deadline path s
        ≡ (ok out, t)
      → d.campaigns campaign_id ≡ some c
      → d.world ≡ t.world
      → Donations.donate tokens give_env donor campaign_id out memo d ≡ (ok receipt_id, d')
      → donor ≢ router_env.contract
      → c.beneficiary ≢ router_env.contract
      → IsApart donor s
      → IsApart c.beneficiary s
      → IsApart router_env.contract s
      → (u : Address)
      → (funds d'.world u donor ≡ funds s.world u donor -ℤ when (u == token_in) amount_in)
        × (funds d'.world u c.beneficiary
            ≡ funds s.world u c.beneficiary +ℤ when (u == c.token) out)
        × (funds d'.world u router_env.contract ≡ funds s.world u router_env.contract)
  swap_then_donate token_in amount_in amount_out_min deadline path s t out c campaign_id receipt_id
        memo d d' swapped found joined given not_router charity_not_router donor_apart charity_apart
        router_apart u =
      let (other, moves) =
        gift_moves out c campaign_id receipt_id memo d d' t.world found joined given in
      let router = router_env.contract in
      let paid =
        swap_pays_trader tokens adapters router_env funds ledger true donor token_in c.token
          amount_in amount_out_min deadline path s t out swapped not_router (confined donor)
          donor_apart u in
      let spared =
        swap_spares_bystanders tokens adapters router_env funds ledger true donor c.beneficiary
          charity_not_router (λ e. other (sym e)) (confined c.beneficiary) token_in c.token
          amount_in amount_out_min deadline path s t out charity_apart swapped u in
      let kept =
        swap_keeps_custody tokens adapters router_env funds ledger true donor token_in c.token
          amount_in amount_out_min deadline path s t out swapped (λ e. not_router (sym e))
          (confined router) router_apart u in
      (
        donor_pays (u == token_in) (u == c.token) (u == c.token && donor == c.beneficiary)
            (u == c.token && donor == donor) (funds s.world u donor) (funds t.world u donor)
            (funds d'.world u donor) amount_in out (not_holder u c.token donor c.beneficiary other)
            (is_holder u c.token donor) paid (moves u donor),
        gift_arrives (u == c.token) (u == c.token && c.beneficiary == c.beneficiary)
            (u == c.token && c.beneficiary == donor) (funds s.world u c.beneficiary)
            (funds t.world u c.beneficiary) (funds d'.world u c.beneficiary) out
            (is_holder u c.token c.beneficiary)
            (not_holder u c.token c.beneficiary donor (λ e. other (sym e))) spared
            (moves u c.beneficiary),
        unmoved (u == c.token && router == c.beneficiary) (u == c.token && router == donor)
            (funds s.world u router) (funds t.world u router) (funds d'.world u router) out
            (not_holder u c.token router c.beneficiary (λ e. charity_not_router (sym e)))
            (not_holder u c.token router donor (λ e. not_router (sym e))) kept (moves u router),
      )
