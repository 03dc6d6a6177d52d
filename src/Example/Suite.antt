-- ===== src/Example/Suite.antt =====
-- The unit tests of contracts/example/src/lib.rs, as statements, and that they hold.
use stellariq_contract.Prelude.{◌≡◌, refl, none, some, Option, pos, ◌+ℤ◌}
use stellariq_contract.Soroban.{Contract, client}
use stellariq_contract.Interfaces.{and_then}
use stellariq_contract.Example.Defs.{
  NoError, State, initialize, greeting, set_greeting, count, increment, hello,
}

-- The storage of a contract that has just been registered.
abbrev setup : State
setup = record { greeting = none; counter = none }

-- A call by the client, and then the rest of the test.
infixl 5 ◌▹◌
abbrev ◌▹◌ : {A B : Type 0} → Option (A × State) → Contract State NoError B → Option (B × State)
before ▹ m = and_then before (λ r. client m r.1)

-- What the last call gave.
abbrev answer : {A : Type 0} → Option (A × State) → Option A
answer run = and_then run (λ r. some r.0)

abbrev InitializeAndReadGreeting : Type 0
InitializeAndReadGreeting = answer (client (initialize "Soroban") setup ▹ greeting) ≡ some "Soroban"

abbrev SetGreetingUpdates : Type 0
SetGreetingUpdates =
    answer (client (initialize "Hi") setup ▹ set_greeting "Hey" ▹ greeting) ≡ some "Hey"

abbrev DoubleInitFails : Type 0
DoubleInitFails = (client (initialize "A") setup ▹ initialize "B") ≡ none

abbrev CounterStartsAtZero : Type 0
CounterStartsAtZero = answer (client (initialize "Go") setup ▹ count) ≡ some (pos 0)

abbrev IncrementIncreasesCount : Type 0
IncrementIncreasesCount =
    let started = client (initialize "Go") setup in
    (answer (started ▹ increment) ≡ some (pos 1))
    × (answer (started ▹ increment ▹ increment) ≡ some (pos 2))
    × (answer (started ▹ increment ▹ increment ▹ count) ≡ some (pos 2))

abbrev HelloReturnsGreeting : Type 0
HelloReturnsGreeting = answer (client (initialize "Go") setup ▹ hello "Stellar") ≡ some "Hello"

tests_pass :
    InitializeAndReadGreeting × SetGreetingUpdates × DoubleInitFails × CounterStartsAtZero
    × IncrementIncreasesCount × HelloReturnsGreeting
unfolding initialize greeting set_greeting count increment hello ◌+ℤ◌
tests_pass = (refl, refl, refl, refl, (refl, refl, refl), refl)
