-- ===== src/Example/Counter.antt =====
-- The counter of contracts/example/src/lib.rs: what a run of `increment` leads to, up to the overflow.
use stellariq_contract.Prelude.{
  ℕ, zero, suc, ◌+◌, ◌^◌, ◌<◌, ◌≡◌, refl, none, some, ltb, if◌then◌else◌, pos, ◌+ℤ◌, arith,
}
use stellariq_contract.Soroban.{Symbol, Contract, pure, bind_ok, ok, trap, ◌>>◌}
use stellariq_contract.Example.Defs.{NoError, State, initialize, increment, count, greeting}

abbrev pub blank : State
blank = record { greeting = none; counter = none }

abbrev pub counted : Symbol → ℕ → State
counted name n = record { greeting = some name; counter = some (pos n) }

increment-counted :
    (name : Symbol) (n : ℕ)
    → increment (counted name n) ≡ (
        if ltb (n + 1) (2 ^ 31)
        then (ok (pos (n + 1)), counted name (n + 1))
        else (trap, counted name n))
unfolding increment ◌+ℤ◌
increment-counted name n = ground arith

unfoldable pub increments : ℕ → Contract State NoError (Unit {0})
increments zero = pure tt
increments (suc n) = increments n >> (increment >> pure tt)

increments-counted :
    (name : Symbol) (n : ℕ) → n < 2 ^ 31 → increments n (counted name 0) ≡ (ok tt, counted name n)
unfolding increments
increments-counted name zero h = refl
increments-counted name (suc n) h =
    let next : increment (counted name n) ≡ (ok (pos (n + 1)), counted name (n + 1)) =
      ground (arith, increment-counted name n) in
    bind_ok (λ r. r ≡ (ok tt, counted name (suc n))) (increments n) (λ _. increment >> pure tt)
      (counted name 0) tt (counted name n) (increments-counted name n (omega arith))
      (bind_ok (λ r. r ≡ (ok tt, counted name (suc n))) increment (λ _. pure tt) (counted name n)
        (pos (n + 1)) (counted name (n + 1)) next (ground arith))

-- After `initialize`, `n` calls of `increment` count to `n`, as long as `n` fits an `i32`. The next call
-- counts on, or traps at the largest `i32` and leaves the counter there.
pub increments-count :
    (name : Symbol) (n : ℕ)
    → n < 2 ^ 31
    → let (r, t) = (initialize name >> increments n) blank in
      (r ≡ ok tt)
      × (count t ≡ (ok (pos n), t))
      × (greeting t ≡ (ok name, t))
      × (increment t
          ≡ (if ltb (n + 1) (2 ^ 31) then (ok (pos (n + 1)), counted name (n + 1)) else (trap, t)))
unfolding initialize count greeting
increments-count name n h =
    rw (increments-counted name n h) (refl, refl, refl, increment-counted name n)
