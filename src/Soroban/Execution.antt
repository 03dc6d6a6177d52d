-- ===== src/Soroban/Execution.antt =====
-- How a contract function runs: it passes the contract's storage on, and ends with a value, with a
-- contract error (`Err(e)`), or in a host trap. The storage reached so far comes back in each case.
use mathlib.Core.Path.{subst⁻¹}
use stellariq_contract.Prelude.{
  ◌≡◌, refl, ◌∙◌, ◌⊎◌, inl, inr, Bool, true, false, Option, none, some,
}

pub data Outcome (E A : Type 0) : Type 0 where
  ok : A → Outcome E A
  err : E → Outcome E A
  trap : Outcome E A

abbrev pub Contract : Type 0 → Type 0 → Type 0 → Type 0
Contract S E A = S → Outcome E A × S

module _ {S E A : Type 0} where
  abbrev pub pure : A → Contract S E A
  pure a s = (ok a, s)

  -- `return Err(e)`
  abbrev pub fail : E → Contract S E A
  fail e s = (err e, s)

  -- `panic!`, and a failed call of the host
  abbrev pub abort : Contract S E A
  abort s = (trap, s)

  abbrev pub gets : (S → A) → Contract S E A
  gets f s = (ok (f s), s)

  -- `.ok_or(e)?`
  abbrev pub ok_or : Option A → E → Contract S E A
  ok_or none e s = (err e, s)
  ok_or (some a) e s = (ok a, s)

  -- A host call, or checked arithmetic, that traps where it has no result.
  abbrev pub or_trap : Option A → Contract S E A
  or_trap none s = (trap, s)
  or_trap (some a) s = (ok a, s)

module _ {S E : Type 0} where
  abbrev pub modify : (S → S) → Contract S E (Unit {0})
  modify f s = (ok tt, f s)

  -- `if test { return Err(e); }`
  abbrev pub fail_if : Bool → E → Contract S E (Unit {0})
  fail_if true e s = (err e, s)
  fail_if false e s = (ok tt, s)

-- `.unwrap_or(a)`
abbrev pub unwrap_or : {A : Type 0} → Option A → A → A
unwrap_or none a = a
unwrap_or (some b) a = b

-- `storage.has(key)`
abbrev pub has : {A : Type 0} → Option A → Bool
has none = false
has (some _) = true

infixl 5 ◌>>=◌ ◌>>◌
abbrev pub ◌>>=◌ : {S E A B : Type 0} → Contract S E A → (A → Contract S E B) → Contract S E B
◌>>=◌ m f s = let (r, t) = m s in elim r [ ok a ↦ f a t | err e ↦ (err e, t) | trap ↦ (trap, t) ]

abbrev pub ◌>>◌ : {S E A B : Type 0} → Contract S E A → Contract S E B → Contract S E B
m >> k = m >>= λ _. k

-- To prove something of a bind whose first part is known: it goes on, or it ends there.
module _ {ℓ} {S E A B : Type 0} (P : Outcome E B × S → Type ℓ) where
  pub bind_ok :
      (m : Contract S E A) (f : A → Contract S E B) (s : S) (a : A) (t : S)
      → m s ≡ (ok a, t)
      → P (f a t)
      → P ((m >>= f) s)
  bind_ok m f s a t e p = subst⁻¹ (λ r. P (((λ _. r) >>= f) s)) e p

  pub bind_err :
      (m : Contract S E A) (f : A → Contract S E B) (s : S) (x : E) (t : S)
      → m s ≡ (err x, t)
      → P (err x, t)
      → P ((m >>= f) s)
  bind_err m f s x t e p = subst⁻¹ (λ r. P (((λ _. r) >>= f) s)) e p

  pub bind_trap :
      (m : Contract S E A) (f : A → Contract S E B) (s t : S)
      → m s ≡ (trap, t)
      → P (trap, t)
      → P ((m >>= f) s)
  bind_trap m f s t e p = subst⁻¹ (λ r. P (((λ _. r) >>= f) s)) e p

  bind_known :
      (m : Contract S E A) (f : A → Contract S E B) (s : S) (r : Outcome E A × S)
      → m s ≡ r
      → ((a : A) (t : S) → m s ≡ (ok a, t) → P (f a t))
      → ((x : E) (t : S) → m s ≡ (err x, t) → P (err x, t))
      → ((t : S) → m s ≡ (trap, t) → P (trap, t))
      → P ((m >>= f) s)
  bind_known m f s (ok a, t) e good bad stop = bind_ok m f s a t e (good a t e)
  bind_known m f s (err x, t) e good bad stop = bind_err m f s x t e (bad x t e)
  bind_known m f s (trap, t) e good bad stop = bind_trap m f s t e (stop t e)

  -- The cases of a bind, by how its first part ends.
  pub bind_cases :
      (m : Contract S E A) (f : A → Contract S E B) (s : S)
      → ((a : A) (t : S) → m s ≡ (ok a, t) → P (f a t))
      → ((x : E) (t : S) → m s ≡ (err x, t) → P (err x, t))
      → ((t : S) → m s ≡ (trap, t) → P (trap, t))
      → P ((m >>= f) s)
  bind_cases m f s = bind_known m f s (m s) refl

-- A bind that returns a value has returned one in both parts.
abbrev pub BindOk : {S E A B : Type 0} → Contract S E A → (A → Contract S E B) → S → B → S → Type 0
BindOk {S} {E} {A} m f s b u = (a : A) × (t : S) × (m s ≡ (ok a, t)) × (f a t ≡ (ok b, u))

BindOk-known :
    {S E A B : Type 0} (m : Contract S E A) (f : A → Contract S E B) (s : S) {b : B} {u : S}
    (r : Outcome E A × S)
    → m s ≡ r
    → ((λ _. r) >>= f) s ≡ (ok b, u)
    → BindOk m f s b u
BindOk-known m f s (ok a, t) e h = (a, t, e, h)
BindOk-known m f s (err x, t) e h = cc
BindOk-known m f s (trap, t) e h = cc

pub bind_inv :
    {S E A B : Type 0} (m : Contract S E A) (f : A → Contract S E B) (s : S) {b : B} {u : S}
    → (m >>= f) s ≡ (ok b, u)
    → BindOk m f s b u
bind_inv m f s h = BindOk-known m f s (m s) refl h

-- A bind that ends in an error has ended there in its first part or in its second.
abbrev pub BindErr : {S E A B : Type 0} → Contract S E A → (A → Contract S E B) → S → E → S → Type 0
BindErr {S} {E} {A} m f s e u =
    (m s ≡ (err e, u)) ⊎ ((a : A) × (t : S) × (m s ≡ (ok a, t)) × (f a t ≡ (err e, u)))

BindErr-known :
    {S E A B : Type 0} (m : Contract S E A) (f : A → Contract S E B) (s : S) {e : E} {u : S}
    (r : Outcome E A × S)
    → m s ≡ r
    → ((λ _. r) >>= f) s ≡ (err e, u)
    → BindErr m f s e u
BindErr-known m f s (ok a, t) q h = inr (a, t, q, h)
BindErr-known m f s (err x, t) q h = inl (q ∙ cc)
BindErr-known m f s (trap, t) q h = cc

pub BindErr-inv :
    {S E A B : Type 0} (m : Contract S E A) (f : A → Contract S E B) (s : S) {e : E} {u : S}
    → (m >>= f) s ≡ (err e, u)
    → BindErr m f s e u
BindErr-inv m f s h = BindErr-known m f s (m s) refl h

abbrev pub settle : {S E A : Type 0} → S → Outcome E A × S → Outcome E A × S
settle s (ok a, t) = (ok a, t)
settle s (err e, t) = (err e, s)
settle s (trap, t) = (trap, s)

-- A top-level invocation: the host keeps the changes of a call that returns a value, and rolls all
-- others back.
abbrev pub invoke : {S E A : Type 0} → Contract S E A → Contract S E A
invoke m s = settle s (m s)

abbrev returned : {E A S : Type 0} → Outcome E A × S → Option (A × S)
returned (ok a, s) = some (a, s)
returned (err e, s) = none
returned (trap, s) = none

-- A call by a client: it panics where the call fails.
abbrev pub client : {S E A : Type 0} → Contract S E A → S → Option (A × S)
client m s = returned (invoke m s)
