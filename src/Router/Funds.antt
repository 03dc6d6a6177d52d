-- ===== src/Router/Funds.antt =====
-- What one hop of `Router::swap` does to the balances of a holder (contracts/router/src/lib.rs), where
-- the token contracts keep to SEP-41 and adapters spend only what is theirs.
use stellariq_contract.Prelude.{
  ℕ, ◌≡◌, ◌≢◌, inl, inr, refl, Bool, true, false, ◌&&◌, Option, none, some, Bool-cases, parts_eq,
  ◌==◌, if◌then◌else◌, ℤ, pos, ◌≤ℤ◌, ◌+ℤ◌, ◌-ℤ◌, checked_sub, int_laws, arith, ap,
}
use stellariq_contract.Soroban.{Address, Env, Tokens, ok}
use stellariq_contract.Soroban.Sep41.{when, IsLedger}
use stellariq_contract.Interfaces.{
  SwapStep, AdapterCall, Adapters, Reply, value, unreadable, refused, aborted,
}
use stellariq_contract.Router.Storage.{State}
use stellariq_contract.Router.Swap.{token_transfer, adapter_swap, deliver, execute_hop}

-- The balance that is meant changes exactly as given, or at least so in the holder's favour.
abbrev pub Holds : Bool → ℤ → ℤ → Type 0
Holds true a b = a ≡ b
Holds false a b = a ≤ℤ b

-- An adapter call leaves the holder's balances alone, or lowers none of them, but for the output that
-- it delivers: only its own balances can an adapter spend.
abbrev pub IsConfined :
    {W : Type 0} → Adapters W → (W → Address → Address → ℤ) → Bool → Address → Type 0
IsConfined {W} adapters funds exact h =
    (w : W) (a : Address) (c : AdapterCall) (v : ℤ) (w' : W) (u : Address)
    → adapters.try_swap w a c ≡ value v w'
    → h ≢ a
    → (u == c.token_out && h == c.recipient) ≡ false
    → Holds exact (funds w u h) (funds w' u h)

-- An optional value is there and has a property.
abbrev pub Through : {A : Type 0} → Option A → (A → Type 0) → Type 0
Through none P = ⊥
Through (some x) P = P x

pub Through-some :
    {A : Type 0} (o : Option A) (P : A → Type 0) → Through o P → (x : A) × (o ≡ some x) × P x
Through-some none P h = absurd h
Through-some (some x) P h = (x, refl, h)

-- An adapter call came back with a value, and left this state of the other contracts.
abbrev pub Answered : {W : Type 0} → Reply W → W → Type 0
Answered (value _ w) w' = w ≡ w'
Answered _ w' = ⊥

Answered-value : {W : Type 0} (r : Reply W) (w' : W) → Answered r w' → (v : ℤ) × (r ≡ value v w')
Answered-value (value v w) w' h = (v, ap (value v) h)
Answered-value (unreadable _) w' h = absurd h
Answered-value (refused _) w' h = absurd h
Answered-value aborted w' h = absurd h

module _ {W : Type 0} (tokens : Tokens W) (adapters : Adapters W) (env : Env) where
  abbrev pub call_of : SwapStep → Address → ℤ → AdapterCall
  call_of x recipient amount = record {
    pool = x.pool;
    token_in = x.token_in;
    token_out = x.token_out;
    amount_in = amount;
    amount_out_min = x.amount_out_min;
    recipient = recipient;
  }

  abbrev pub recipient_of : Address → ℕ → ℕ → Address
  recipient_of trader last i = if i == last then trader else env.contract

  -- The calls of a hop that goes through: the transfer to the adapter, the balance before, the
  -- adapter's swap, and the balance after.
  module _ (recipient : Address) (x : SwapStep) (amount out : ℤ) (t : State W) where
    abbrev pub Remeasured : Address → W → ℤ → ℤ → Type 0
    Remeasured a w before after =
        (out ≡ after -ℤ before)
        × Answered (adapters.try_swap w a (call_of x recipient amount)) t.world

    abbrev pub Measured : Address → W → ℤ → Type 0
    Measured a w before =
        Through (tokens.balance t.world x.token_out recipient) (Remeasured a w before)

    abbrev pub Forwarded : Address → W → Type 0
    Forwarded a w = Through (tokens.balance w x.token_out recipient) (Measured a w)

    abbrev pub Resolved : State W → Address → Type 0
    Resolved s a =
        Through (tokens.transfer s.world env.contract x.token_in env.contract a amount)
          (Forwarded a)

    abbrev pub HopCalls : State W → Type 0
    HopCalls s = Through (s.protocols x.protocol) (Resolved s)

  pub execute_hop-HopCalls :
      (trader : Address) (last execution_id i : ℕ) (x : SwapStep) (amount out : ℤ) (s t : State W)
      → execute_hop tokens adapters env trader last execution_id i x amount s ≡ (ok out, t)
      → HopCalls (recipient_of trader last i) x amount out t s
  unfolding execute_hop token_transfer deliver adapter_swap checked_sub
  execute_hop-HopCalls trader last execution_id i x amount out s t h = ground arith

module _ {W : Type 0} (tokens : Tokens W) (adapters : Adapters W) (env : Env) (trader : Address)
    (last execution_id : ℕ) where
  pub execute_hop-protocols :
      (i : ℕ) (x : SwapStep) (amount out : ℤ) (s t : State W)
      → execute_hop tokens adapters env trader last execution_id i x amount s ≡ (ok out, t)
      → t.protocols ≡ s.protocols
  unfolding execute_hop token_transfer deliver adapter_swap
  execute_hop-protocols i x amount out s t h = ground arith

Holds-eq : (exact : Bool) {a b : ℤ} → a ≡ b → Holds exact a b
Holds-eq true e = e
Holds-eq false e = omega (int_laws, parts_eq e)

-- The holder pays `c` from `p` and is left with `q`, and the call that follows leads to `r`.
Holds-paid :
    (exact : Bool) (p q r c : ℤ)
    → q ≡ p +ℤ pos 0 -ℤ c
    → Holds exact q r
    → Holds exact (p -ℤ c +ℤ pos 0) r
Holds-paid true p q r c e k = omega (int_laws, parts_eq e, parts_eq k)
Holds-paid false p q r c e k = omega (int_laws, parts_eq e)

-- The same, where the call delivers `out` to the holder.
Holds-got :
    (exact : Bool) (p q r c out : ℤ)
    → q ≡ p +ℤ pos 0 -ℤ c
    → out ≡ r -ℤ q
    → Holds exact (p -ℤ c +ℤ out) r
Holds-got exact p q r c out e k = Holds-eq exact (omega (int_laws, parts_eq e, parts_eq k))

both_true : (u v h k : ℕ) → (u == v && h == k) ≡ true → (u ≡ v) × (h ≡ k)
both_true u v h k e = ground arith

not_payee : (u v h k : ℕ) → h ≢ k → (u == v && h == k) ≡ false
not_payee u v h k e = ground arith

module _ {W : Type 0} (tokens : Tokens W) (adapters : Adapters W) (env : Env)
    (funds : W → Address → Address → ℤ) (ledger : IsLedger tokens funds) (exact : Bool)
    (h : Address) (confined : IsConfined adapters funds exact h) where
  open ledger use {balance_funds, transfer_funds}

  -- What a hop makes of the holder's balance of the token `u`.
  abbrev pub after_hop : Address → SwapStep → ℤ → ℤ → W → Address → ℤ
  after_hop recipient x amount out w u =
      funds w u h
      -ℤ when (u == x.token_in && h == env.contract) amount
      +ℤ when (u == x.token_out && h == recipient) out

  pub HopCalls-funds :
      (recipient : Address) (x : SwapStep) (amount out : ℤ) (s t : State W)
      → ((a : Address) → s.protocols x.protocol ≡ some a → h ≢ a)
      → HopCalls tokens adapters env recipient x amount out t s
      → (u : Address) → Holds exact (after_hop recipient x amount out s.world u) (funds t.world u h)
  HopCalls-funds recipient x amount out s t apart calls u =
      let (a, found, c1) =
        Through-some (s.protocols x.protocol)
          (Resolved tokens adapters env recipient x amount out t s) calls in
      let (w, moved, c2) =
        Through-some (tokens.transfer s.world env.contract x.token_in env.contract a amount)
          (Forwarded tokens adapters env recipient x amount out t a) c1 in
      let (before, read, c3) =
        Through-some (tokens.balance w x.token_out recipient)
          (Measured tokens adapters env recipient x amount out t a w) c2 in
      let (after, reread, c4) =
        Through-some (tokens.balance t.world x.token_out recipient)
          (Remeasured tokens adapters env recipient x amount out t a w before) c3 in
      let (measured, answered) = c4 in
      let (v, called) =
        Answered-value (adapters.try_swap w a (call_of tokens adapters env x recipient amount))
          t.world answered in
      let paid = transfer_funds s.world env.contract x.token_in env.contract a amount w u h moved in
      let paid' = rw (not_payee u x.token_in h a (apart a found)) at paid in
      elim (Bool-cases (u == x.token_out && h == recipient)) [
        | inl own ↦
            let (token, holder) = both_true u x.token_out h recipient own in
            let grown : out ≡ funds t.world u h -ℤ funds w u h = cc (
              balance_funds w x.token_out recipient before read,
              balance_funds t.world x.token_out recipient after reread,
            ) in
            rw own (Holds-got exact _ (funds w u h) _ _ out paid' grown)
        | inr other ↦ rw other (
            Holds-paid exact _ _ _ _ paid' (
              confined w a (call_of tokens adapters env x recipient amount) v t.world u called
                (apart a found) other))
      ]
