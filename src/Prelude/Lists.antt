-- ===== src/Prelude/Lists.antt =====
-- Lists measured and indexed by native numbers, under the library's names.
use Prim.Native.Nat.{ℕ, zero, suc, ◌+◌}
use mathlib.Core.Path.{◌≡◌, refl, ap}
use mathlib.Core.List.{List, [], ◌∷◌, ◌++◌, map}
use mathlib.Core.Option.{Option, none, some}
use native.Mathlib.Omega.{arith}

module _ {ℓ} {A : Type ℓ} where
  abbrev pub length : List A → ℕ
  length [] = 0
  length (x ∷ xs) = suc (length xs)

  abbrev pub get_elem? : List A → ℕ → Option A
  get_elem? [] i = none
  get_elem? (x ∷ xs) zero = some x
  get_elem? (x ∷ xs) (suc i) = get_elem? xs i

  pub length-append : (xs ys : List A) → length (xs ++ ys) ≡ length xs + length ys
  length-append [] ys = omega arith
  length-append (x ∷ xs) ys = omega (arith, length-append xs ys)

-- A predicate holds of every element.
abbrev pub All {ℓ κ} : {A : Type ℓ} → (A → Type κ) → List A → Type κ
All P [] = Unit
All P (x ∷ xs) = P x × All P xs

pub length-map {ℓ κ} :
    {A : Type ℓ} {B : Type κ} (f : A → B) (xs : List A) → length (map f xs) ≡ length xs
length-map f [] = refl
length-map f (x ∷ xs) = ap suc (length-map f xs)

-- The part of a list from position `i` on, as an indexed loop over the whole list meets it.
abbrev pub IsFrom {ℓ} : {A : Type ℓ} → List A → ℕ → List A → Type ℓ
IsFrom xs i rest = (j : ℕ) → get_elem? xs (i + j) ≡ get_elem? rest j

module _ {ℓ} {A : Type ℓ} where
  pub IsFrom-start : (xs : List A) → IsFrom xs 0 xs
  IsFrom-start xs j = let e : 0 + j ≡ j = omega arith in ap (get_elem? xs) e

  pub IsFrom-head :
      (xs : List A) (i : ℕ) (x : A) (rest : List A)
      → IsFrom xs i (x ∷ rest)
      → get_elem? xs i ≡ some x
  IsFrom-head xs i x rest h = let e : i + 0 ≡ i = omega arith in rw e at (h 0)

  pub IsFrom-tail :
      (xs : List A) (i : ℕ) (x : A) (rest : List A)
      → IsFrom xs i (x ∷ rest)
      → IsFrom xs (i + 1) rest
  IsFrom-tail xs i x rest h j = let e : i + suc j ≡ i + 1 + j = omega arith in rw e at (h (suc j))
