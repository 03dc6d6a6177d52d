-- ===== src/Example/Defs.antt =====
-- contracts/example/src/lib.rs, entry point by entry point. There is no contract error: what fails
-- panics.
use stellariq_contract.Prelude.{
  Option, none, some, ◌^◌, if◌then◌else◌, ℤ, pos, pos_part, neg_part, ◌+ℤ◌, ltb, leb, ◌&&◌,
}
use stellariq_contract.Soroban.{
  Symbol, Contract, pure, abort, gets, or_trap, modify, unwrap_or, has, ◌>>=◌, ◌>>◌,
}

pub data NoError : Type 0 where

-- `DataKey::Greeting` and `COUNTER`, both in instance storage.
pub record State : Type 0 where
  pub greeting : Option Symbol
  pub counter : Option ℤ

-- `+` on an `i32`, which traps on overflow
abbrev pub add_i32 : ℤ → ℤ → Option ℤ
add_i32 a b =
    let sum = a +ℤ b in
    if ltb (pos_part sum) (2 ^ 31) && leb (neg_part sum) (2 ^ 31) then some sum else none

unfoldable pub initialize : Symbol → Contract State NoError (Unit {0})
initialize greeting = do
  started ← gets (λ s. has s.greeting)
  if started then abort else pure tt
  modify (λ s. record s { greeting = some greeting })
  modify (λ s. record s { counter = some (pos 0) })

unfoldable pub greeting : Contract State NoError Symbol
greeting = do or_trap (← gets (λ s. s.greeting))

unfoldable pub set_greeting : Symbol → Contract State NoError (Unit {0})
set_greeting greeting = modify (λ s. record s { greeting = some greeting })

unfoldable pub count : Contract State NoError ℤ
count = gets (λ s. unwrap_or s.counter (pos 0))

unfoldable pub increment : Contract State NoError ℤ
increment = do
  count ← gets (λ s. unwrap_or s.counter (pos 0))
  next ← or_trap (add_i32 count (pos 1))
  modify (λ s. record s { counter = some next })
  pure next

unfoldable pub hello : Symbol → Contract State NoError Symbol
hello name = pure "Hello"
