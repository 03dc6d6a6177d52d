-- ===== src/Router/Tracking.antt =====
-- Two contract functions that do the same, of which the second runs among contracts that count calls:
-- what is used of the monad of contracts/router/src/lib.rs keeps them in step.
use stellariq_contract.Prelude.{
  ℕ, ◌+◌, ◌≤◌, ◌≡◌, refl, sym, ◌∙◌, ap, subst, Bool, true, false, Option, none, some, arith,
}
use stellariq_contract.Soroban.{Contract, Outcome, ok, err, trap, pure, ok_or, fail_if, gets, ◌>>=◌}

abbrev pub Returned : {E A : Type 0} → Outcome E A → Type 0
Returned (ok a) = Unit
Returned (err e) = ⊥
Returned trap = ⊥

-- From any count on, both runs end alike; the second adds at most `k` to its count, and just `k` if
-- they return a value.
pub record Tracks {S S' E A : Type 0} (meter : S → ℕ → S') (k : ℕ) (m : Contract S E A)
    (m' : Contract S' E A) : Type 0 where
  pub run :
      (s : S) (n : ℕ)
      → (c : ℕ) × (m' (meter s n) ≡ ((m s).0, meter (m s).1 c))
        × (n ≤ c)
        × (c ≤ n + k)
        × (Returned (m s).0 → c ≡ n + k)

module _ {S S' E : Type 0} {meter : S → ℕ → S'} where
  module _ {A B : Type 0} {f : A → Contract S E B} {f' : A → Contract S' E B} (k l : ℕ)
      (rest : (a : A) → Tracks meter l (f a) (f' a)) where
    abbrev Ends : ℕ → Outcome E B × S → Outcome E B × S' → Type 0
    Ends n r r' =
        (c : ℕ) × (r' ≡ (r.0, meter r.1 c))
        × (n ≤ c)
        × (c ≤ n + (k + l))
        × (Returned r.0 → c ≡ n + (k + l))

    first_ends :
        (s : S) (n c : ℕ) (r : Outcome E A) (t : S)
        → n ≤ c
        → c ≤ n + k
        → (Returned r → c ≡ n + k)
        → Ends n (((λ _. (r, t)) >>= f) s) (((λ _. (r, meter t c)) >>= f') (meter s n))
    first_ends s n c (ok a) t least most all =
        let (d, e, more, bound, whole) = (rest a).run t c in
        (d, e, omega arith, omega (arith, all tt), λ y. omega (arith, all tt, whole y))
    first_ends s n c (err x) t least most all = (c, refl, omega arith, omega arith, λ y. absurd y)
    first_ends s n c trap t least most all = (c, refl, omega arith, omega arith, λ y. absurd y)

    both_track :
        (m : Contract S E A) (m' : Contract S' E A)
        → Tracks meter k m m'
        → Tracks meter (k + l) (m >>= f) (m' >>= f')
    both_track m m' first = record {
      run = λ s n.
          let (c, e, least, most, all) = first.run s n in
          subst (λ z. Ends n ((m >>= f) s) (((λ _. z) >>= f') (meter s n))) (sym e)
            (first_ends s n c (m s).0 (m s).1 least most all);
    }

  pub Tracks-bind :
      {A B : Type 0} {j k l : ℕ} {m : Contract S E A} {m' : Contract S' E A}
      {f : A → Contract S E B} {f' : A → Contract S' E B}
      → k + l ≡ j
      → Tracks meter k m m'
      → ((a : A) → Tracks meter l (f a) (f' a))
      → Tracks meter j (m >>= f) (m' >>= f')
  Tracks-bind {k} {l} {m} {m'} {f} {f'} e first rest =
      subst (λ i. Tracks meter i (m >>= f) (m' >>= f')) e (both_track k l rest m m' first)

  -- The steps that call nothing.
  pub Tracks-pure : {A : Type 0} (a : A) → Tracks {E = E} meter 0 (pure a) (pure a)
  Tracks-pure a = record { run = λ s n. (n, refl, omega arith, omega arith, λ _. omega arith) }

  pub Tracks-ok_or : {A : Type 0} (o : Option A) (e : E) → Tracks meter 0 (ok_or o e) (ok_or o e)
  Tracks-ok_or none e = record {
    run = λ s n. (n, refl, omega arith, omega arith, λ _. omega arith);
  }
  Tracks-ok_or (some a) e = record {
    run = λ s n. (n, refl, omega arith, omega arith, λ _. omega arith);
  }

  pub Tracks-fail_if : (test : Bool) (e : E) → Tracks meter 0 (fail_if test e) (fail_if test e)
  Tracks-fail_if true e = record {
    run = λ s n. (n, refl, omega arith, omega arith, λ _. omega arith);
  }
  Tracks-fail_if false e = record {
    run = λ s n. (n, refl, omega arith, omega arith, λ _. omega arith);
  }

  pub Tracks-gets :
      {A : Type 0} (g : S → A) (g' : S' → A)
      → ((s : S) (n : ℕ) → g' (meter s n) ≡ g s)
      → Tracks {E = E} meter 0 (gets g) (gets g')
  Tracks-gets g g' same = record {
    run = λ s n.
        (n, ap (λ a. (ok a, meter s n)) (same s n), omega arith, omega arith, λ _. omega arith);
  }

-- The second run ends as the first does, after a number of calls that the outcome allows.
pub record EndsAs {S S' E A : Type 0} (meter : S → ℕ → S') (P : Outcome E A → ℕ → Type 0)
    (r : Outcome E A × S) (r' : Outcome E A × S') : Type 0 where
  pub calls : ℕ
  pub alike : r' ≡ (r.0, meter r.1 calls)
  pub allowed : P r.0 calls

-- A bind whose first part calls nothing, before any call is made.
module _ {S S' E A B : Type 0} {meter : S → ℕ → S'} {P : Outcome E B → ℕ → Type 0}
    {f : A → Contract S E B} (f' : A → Contract S' E B) (m : Contract S E A) (m' : Contract S' E A)
    (s : S) where
  then_ends :
      (r : Outcome E A) (t : S)
      → m s ≡ (r, t)
      → ((e : E) (u : S) → m s ≡ (err e, u) → P (err e) 0)
      → P trap 0
      → ((a : A) (u : S) → m s ≡ (ok a, u) → EndsAs meter P (f a u) (f' a (meter u 0)))
      → EndsAs meter P (((λ _. (r, t)) >>= f) s) (((λ _. (r, meter t 0)) >>= f') (meter s 0))
  then_ends (ok a) t ran bad stop good = good a t ran
  then_ends (err e) t ran bad stop good = record { calls = 0; alike = refl; allowed = bad e t ran }
  then_ends trap t ran bad stop good = record { calls = 0; alike = refl; allowed = stop }

  pub quiet_then :
      Tracks meter 0 m m'
      → ((e : E) (u : S) → m s ≡ (err e, u) → P (err e) 0)
      → P trap 0
      → ((a : A) (u : S) → m s ≡ (ok a, u) → EndsAs meter P (f a u) (f' a (meter u 0)))
      → EndsAs meter P ((m >>= f) s) ((m' >>= f') (meter s 0))
  quiet_then first bad stop good =
      let (c, e, _, most, all) = first.run s 0 in
      let none_made : c ≡ 0 = omega arith in
      let same : m' (meter s 0) ≡ ((m s).0, meter (m s).1 0) =
        e ∙ ap (λ k. ((m s).0, meter (m s).1 k)) none_made in
      subst (λ z. EndsAs meter P ((m >>= f) s) (((λ _. z) >>= f') (meter s 0))) (sym same)
        (then_ends (m s).0 (m s).1 refl bad stop good)
