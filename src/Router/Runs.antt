-- ===== src/Router/Runs.antt =====
-- The calls of other contracts behind one hop of `Router::swap`, and behind a run of hops
-- (contracts/router/src/lib.rs, the execution loop).
use stellariq_contract.Prelude.{
  ℕ, ◌+◌, ◌≡◌, some, List, [], ◌∷◌, ◌==◌, if◌then◌else◌, ℤ, pos, ◌≤ℤ◌, ◌<ℤ◌, ◌-ℤ◌, IsI128, Map,
}
use stellariq_contract.Soroban.{Address, Symbol, Env, Tokens}
use stellariq_contract.Interfaces.{SwapStep, AdapterCall, Adapters, value}

module _ {W : Type 0} (tokens : Tokens W) (adapters : Adapters W) (env : Env)
    (protocols : Map Symbol Address) (trader : Address) (last : ℕ) where
  abbrev pub recipient_at : ℕ → Address
  recipient_at i = if i == last then trader else env.contract

  abbrev pub call_at : ℕ → SwapStep → ℤ → AdapterCall
  call_at i x amount = record {
    pool = x.pool;
    token_in = x.token_in;
    token_out = x.token_out;
    amount_in = amount;
    amount_out_min = x.amount_out_min;
    recipient = recipient_at i;
  }

  -- Hop `i` takes the other contracts from `w` to `w'` and yields `a`.
  pub record HopGoes (i : ℕ) (x : SwapStep) (amount : ℤ) (w : W) (a : ℤ) (w' : W) : Type 0 where
    pub adapter : Address
    pub sent : W
    pub before : ℤ
    pub reported : ℤ
    pub after : ℤ
    pub known : protocols x.protocol ≡ some adapter
    pub forwarded :
        tokens.transfer w env.contract x.token_in env.contract adapter amount ≡ some sent
    pub measured : tokens.balance sent x.token_out (recipient_at i) ≡ some before
    pub answered : adapters.try_swap sent adapter (call_at i x amount) ≡ value reported w'
    pub remeasured : tokens.balance w' x.token_out (recipient_at i) ≡ some after
    pub positive : pos 0 <ℤ reported
    pub fits : IsI128 (after -ℤ before)
    pub delivered : a ≡ after -ℤ before
    pub honest : reported ≤ℤ a
    pub enough : x.amount_out_min ≤ℤ a

  -- The steps, from step `i` on, take the other contracts from `w` to `w'`, with these amounts.
  pub data Runs : ℕ → List SwapStep → ℤ → W → List ℤ → W → Type 0 where
    arrived : {i : ℕ} {amount : ℤ} {w : W} → Runs i [] amount w [] w
    hop :
        {i : ℕ} {x : SwapStep} {path : List SwapStep} {amount a : ℤ} {amounts : List ℤ}
        {w w1 w2 : W}
        → HopGoes i x amount w a w1
        → Runs (i + 1) path a w1 amounts w2
        → Runs i (x ∷ path) amount w (a ∷ amounts) w2
