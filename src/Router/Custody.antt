-- ===== src/Router/Custody.antt =====
-- What the execution loop of `Router::swap` does to the balances of the router and of the trader
-- (contracts/router/src/lib.rs).
use stellariq_contract.Prelude.{
  ℕ, suc, ◌+◌, ◌≡◌, ◌≢◌, sym, ap, ◌∙◌, Bool, true, false, ◌&&◌, some, List, [], ◌∷◌, ◌++◌, length,
  ◌==◌, if◌then◌else◌, IsFrom, IsFrom-head, IsFrom-tail, ℤ, pos, ◌+ℤ◌, ◌-ℤ◌, int_laws, parts_eq,
  arith,
}
use stellariq_contract.Soroban.{Address, Symbol, Env, Tokens, ok}
use stellariq_contract.Interfaces.{SwapStep, Adapters}
use stellariq_contract.Router.Storage.{State}
use stellariq_contract.Router.Swap.{execute_from}
use stellariq_contract.Router.Spec.{IsRoute}
use stellariq_contract.Soroban.Sep41.{when, IsLedger}
use stellariq_contract.Router.Funds.{
  Holds, IsConfined, recipient_of, execute_hop-HopCalls, execute_hop-protocols, HopCalls-funds,
}
use stellariq_contract.Router.Rounds.{loop_step, loop_end}

-- No registered adapter is the holder.
abbrev pub IsApart : {W : Type 0} → Address → State W → Type 0
IsApart h s = (p : Symbol) (a : Address) → s.protocols p ≡ some a → h ≢ a

-- A payment `c` and a gain `g` lead to `q`, and paying the gain on leads to `t`.
Holds-passed :
    (exact : Bool) (p c g q t : ℤ)
    → Holds exact (p -ℤ c +ℤ g) q
    → Holds exact (q -ℤ g) t
    → Holds exact (p -ℤ c) t
Holds-passed true p c g q t h k = omega (int_laws, parts_eq h, parts_eq k)
Holds-passed false p c g q t h k = omega int_laws

Holds-same : (exact : Bool) (a b : ℤ) → a ≡ b → Holds exact (a -ℤ pos 0) b
Holds-same true a b e = omega (int_laws, parts_eq e)
Holds-same false a b e = omega (int_laws, parts_eq e)

-- What the loop still owes of the token `u` to the router, which holds the input of the next hop.
abbrev pub owed : List SwapStep → Address → ℤ → Address → ℤ
owed [] cursor amount u = pos 0
owed (_ ∷ _) cursor amount u = when (u == cursor) amount

-- What the last hop has yet to deliver to the trader.
abbrev pub due : List SwapStep → Address → ℤ → Address → ℤ
due [] token_out amount u = pos 0
due (_ ∷ _) token_out amount u = when (u == token_out) amount

pub paid_in :
    (u cursor token_in router : ℕ) (amount : ℤ)
    → token_in ≡ cursor
    → when (u == token_in && router == router) amount ≡ when (u == cursor) amount
paid_in u cursor token_in router amount e = ground arith

delivered_to_router :
    (rest : List SwapStep) (i last u token_out router trader : ℕ) (a : ℤ)
    → i + suc (length rest) ≡ suc last
    → router ≢ trader
    → when (u == token_out && router == (if i == last then trader else router)) a
      ≡ owed rest token_out a u
delivered_to_router [] i last u token_out router trader a l n = ground arith
delivered_to_router (x ∷ rest) i last u token_out router trader a l n = ground arith

-- What a hop delivers to the trader, if it is the last one.
abbrev pub gain : List SwapStep → Address → ℤ → Address → ℤ
gain [] token_out amount u = when (u == token_out) amount
gain (_ ∷ _) token_out amount u = pos 0

-- The last hop yields the output token and the amount that the loop returns.
abbrev pub Closes : List SwapStep → Address → Address → ℤ → ℤ → Type 0
Closes [] cursor token_out a b = (cursor ≡ token_out) × (b ≡ a)
Closes (_ ∷ _) cursor token_out a b = Unit

gained :
    (rest : List SwapStep) (i last u cursor token_out router trader : ℕ) (a b : ℤ)
    → i + suc (length rest) ≡ suc last
    → trader ≢ router
    → Closes rest cursor token_out a b
    → when (u == cursor && trader == (if i == last then trader else router)) a
      ≡ gain rest token_out b u
gained [] i last u cursor token_out router trader a b l n c = ground arith
gained (x ∷ rest) i last u cursor token_out router trader a b l n c = ground arith

pub nothing_paid :
    (u token_in router trader : ℕ) (amount : ℤ)
    → trader ≢ router
    → when (u == token_in && trader == router) amount ≡ pos 0
nothing_paid u token_in router trader amount n = ground arith

Holds-gained :
    (exact : Bool) (rest : List SwapStep) (token_out u : Address) (p q t b : ℤ)
    → Holds exact (p -ℤ pos 0 +ℤ gain rest token_out b u) q
    → Holds exact (q +ℤ due rest token_out b u) t
    → Holds exact (p +ℤ when (u == token_out) b) t
Holds-gained true [] token_out u p q t b h k = omega (int_laws, parts_eq h, parts_eq k)
Holds-gained false [] token_out u p q t b h k = omega int_laws
Holds-gained true (_ ∷ _) token_out u p q t b h k = omega (int_laws, parts_eq h, parts_eq k)
Holds-gained false (_ ∷ _) token_out u p q t b h k = omega int_laws

Holds-done : (exact : Bool) (a b : ℤ) → a ≡ b → Holds exact (a +ℤ pos 0) b
Holds-done true a b e = omega (int_laws, parts_eq e)
Holds-done false a b e = omega (int_laws, parts_eq e)

module _ {W : Type 0} (tokens : Tokens W) (adapters : Adapters W) (env : Env)
    (funds : W → Address → Address → ℤ) (ledger : IsLedger tokens funds) (exact : Bool)
    (trader : Address) (last execution_id : ℕ) (path : List SwapStep) where
  module _ (confined : IsConfined adapters funds exact env.contract)
      (other : env.contract ≢ trader) where
    pub loop-router :
        (rest : List SwapStep) (i : ℕ) (cursor token_out : Address) (amount : ℤ) (ps : List Symbol)
        (s : State W) (r : ℤ × List Symbol) (t : State W)
        → IsFrom path i rest
        → i + length rest ≡ suc last
        → IsRoute cursor token_out rest
        → IsApart env.contract s
        → execute_from tokens adapters env trader last execution_id path (length rest) i amount ps s
          ≡ (ok r, t)
        → (u : Address)
        → Holds exact
            (funds s.world u env.contract -ℤ owed rest cursor amount u)
            (funds t.world u env.contract)
    loop-router [] i cursor token_out amount ps s r t from l route apart run u =
        let (out, same) =
          loop_end tokens adapters env trader last execution_id path i amount ps s {r = r} {t = t}
            run in
        Holds-same exact _ _ (ap (λ z. funds z.world u env.contract) same)
    loop-router (x ∷ rest) i cursor token_out amount ps s r t from l route apart run u =
        let (a, s1, hopped, more) =
          loop_step tokens adapters env trader last execution_id path (length rest) i x amount ps s
            (IsFrom-head path i x rest from) run in
        let calls =
          execute_hop-HopCalls tokens adapters env trader last execution_id i x amount a s s1
            hopped in
        let kept =
          execute_hop-protocols tokens adapters env trader last execution_id i x amount a s s1
            hopped in
        let hop =
          HopCalls-funds tokens adapters env funds ledger exact env.contract confined
            (recipient_of tokens adapters env trader last i) x amount a s s1 (apart x.protocol)
            calls u in
        let ih =
          loop-router rest (i + 1) x.token_out token_out a (ps ++ (x.protocol ∷ [])) s1 r t
            (IsFrom-tail path i x rest from) (omega (arith, l)) route.2
            (λ p b e. apart p b (ap (λ m. m p) (sym kept) ∙ e)) more u in
        let out = delivered_to_router rest i last u x.token_out env.contract trader a l other in
        let paid = paid_in u cursor x.token_in env.contract amount route.0 in
        Holds-passed exact (funds s.world u env.contract) (when (u == cursor) amount)
          (owed rest x.token_out a u) (funds s1.world u env.contract) (funds t.world u env.contract)
          (rw (out, paid) at hop) ih

  closing :
      (rest : List SwapStep) (i : ℕ) (cursor token_out : Address) (a : ℤ) (ps : List Symbol)
      (s : State W) (r : ℤ × List Symbol) (t : State W)
      → IsRoute cursor token_out rest
      → execute_from tokens adapters env trader last execution_id path (length rest) i a ps s
        ≡ (ok r, t)
      → Closes rest cursor token_out a r.0
  closing [] i cursor token_out a ps s r t route run = (
    route,
    (loop_end tokens adapters env trader last execution_id path i a ps s {r = r} {t = t} run).0,
  )
  closing (_ ∷ _) i cursor token_out a ps s r t route run = tt

  module _ (confined : IsConfined adapters funds exact trader) (other : trader ≢ env.contract) where
    pub loop-trader :
        (rest : List SwapStep) (i : ℕ) (cursor token_out : Address) (amount : ℤ) (ps : List Symbol)
        (s : State W) (r : ℤ × List Symbol) (t : State W)
        → IsFrom path i rest
        → i + length rest ≡ suc last
        → IsRoute cursor token_out rest
        → IsApart trader s
        → execute_from tokens adapters env trader last execution_id path (length rest) i amount ps s
          ≡ (ok r, t)
        → (u : Address)
        → Holds exact (funds s.world u trader +ℤ due rest token_out r.0 u) (funds t.world u trader)
    loop-trader [] i cursor token_out amount ps s r t from l route apart run u =
        let (out, same) =
          loop_end tokens adapters env trader last execution_id path i amount ps s {r = r} {t = t}
            run in
        Holds-done exact _ _ (ap (λ z. funds z.world u trader) same)
    loop-trader (x ∷ rest) i cursor token_out amount ps s r t from l route apart run u =
        let (a, s1, hopped, more) =
          loop_step tokens adapters env trader last execution_id path (length rest) i x amount ps s
            (IsFrom-head path i x rest from) run in
        let calls =
          execute_hop-HopCalls tokens adapters env trader last execution_id i x amount a s s1
            hopped in
        let kept =
          execute_hop-protocols tokens adapters env trader last execution_id i x amount a s s1
            hopped in
        let hop =
          HopCalls-funds tokens adapters env funds ledger exact trader confined
            (recipient_of tokens adapters env trader last i) x amount a s s1 (apart x.protocol)
            calls u in
        let ih =
          loop-trader rest (i + 1) x.token_out token_out a (ps ++ (x.protocol ∷ [])) s1 r t
            (IsFrom-tail path i x rest from) (omega (arith, l)) route.2
            (λ p b e. apart p b (ap (λ m. m p) (sym kept) ∙ e)) more u in
        let closes =
          closing rest (i + 1) x.token_out token_out a (ps ++ (x.protocol ∷ [])) s1 r t route.2
            more in
        let got =
          gained rest i last u x.token_out token_out env.contract trader a r.0 l other closes in
        let paid = nothing_paid u x.token_in env.contract trader amount other in
        Holds-gained exact rest token_out u (funds s.world u trader) (funds s1.world u trader)
          (funds t.world u trader) r.0 (rw (got, paid) at hop) ih
