-- ===== src/Soroban/Sep41.antt =====
-- What SEP-41 asks of a token contract, as a property of the parameter `Tokens`.
use stellariq_contract.Prelude.{
  ◌≡◌, Bool, ◌&&◌, some, ◌==◌, if◌then◌else◌, ℤ, pos, ◌+ℤ◌, ◌-ℤ◌, ◌≤ℤ◌,
}
use stellariq_contract.Soroban.Host.{Address, Tokens}

-- An amount that counts only under a test.
abbrev pub when : Bool → ℤ → ℤ
when test x = if test then x else pos 0

module _ {W : Type 0} (tokens : Tokens W) (funds : W → Address → Address → ℤ) where
  -- SEP-41: `balance` reads the ledger, and `transfer` moves exactly the amount.
  pub record IsLedger : Type 0 where
    pub balance_funds :
        (w : W) (token holder : Address) (v : ℤ)
        → tokens.balance w token holder ≡ some v
        → v ≡ funds w token holder
    pub transfer_funds :
        (w : W) (invoker token from to : Address) (x : ℤ) (w' : W) (u h : Address)
        → tokens.transfer w invoker token from to x ≡ some w'
        → funds w' u h
          ≡ funds w u h +ℤ when (u == token && h == to) x -ℤ when (u == token && h == from) x

-- What more a token contract must do for payments to go through: it reads balances, which are not
-- negative, and lets a holder pay from its own balance. `Listed` says which tokens do.
pub record IsPaying {W : Type 0} (tokens : Tokens W) (funds : W → Address → Address → ℤ)
    (Listed : Address → Type 0) : Type 0 where
  pub reads :
      (w : W) (token holder : Address)
      → Listed token
      → tokens.balance w token holder ≡ some (funds w token holder)
  pub not_negative : (w : W) (token holder : Address) → pos 0 ≤ℤ funds w token holder
  pub pays :
      (w : W) (token from to : Address) (x : ℤ)
      → Listed token
      → pos 0 ≤ℤ x
      → x ≤ℤ funds w token from
      → (w' : W) × (tokens.transfer w from token from to x ≡ some w')
