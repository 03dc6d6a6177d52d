-- ===== src/Interfaces/Rates.antt =====
-- interfaces/src/lib.rs, the checked arithmetic: `checked_mul_div` is the exact floor of a quotient or
-- nothing, and `min_out_with_slippage` a bound between nothing and the whole amount.
use stellariq_contract.Prelude.{
  ap, ℕ, zero, suc, ◌+◌, ◌-◌, ◌*◌, ◌/◌, ◌^◌, ◌≤◌, ◌<◌, ◌≡◌, ◌⊎◌, inl, inr, Option, none, some,
  arith, Bool-cases, ltb, leb, ◌&&◌, ◌∙◌, sym, if◌then◌else◌, ℤ, pos, negsuc, ◌≤ℤ◌, ◌<ℤ◌, ◌+ℤ◌,
  ◌-ℤ◌, ◌*ℤ◌, IsI128, checked_mul, checked_div,
}
use native.Mathlib.Nat.{
  lt-div-mul-add, div-le_self, div-le_of_le-mul, mul-le-mul_left, sub-le-sub_left,
}
use stellariq_contract.Interfaces.Types.{bps_denom}
use stellariq_contract.Interfaces.Math.{checked_mul_div, min_out_with_slippage}

pub mul_div_pos :
    (a n d : ℕ)
    → checked_mul_div (pos a) (pos n) (pos (suc d))
      ≡ (if ltb (a * n) (2 ^ 127) then some (pos (a * n / suc d)) else none)
unfolding checked_mul_div checked_mul checked_div ◌*ℤ◌
mul_div_pos a n d = ground arith

-- The amount is the floor of `amount * num / denom`.
abbrev pub IsFloor : ℤ → ℤ → ℤ → ℤ → Type 0
IsFloor amount num denom q =
    (pos 0 ≤ℤ q) × (q *ℤ denom ≤ℤ amount *ℤ num) × (amount *ℤ num <ℤ (q +ℤ pos 1) *ℤ denom)

-- An input out of range, or a product beyond an `i128`.
abbrev pub IsRejected : ℤ → ℤ → ℤ → Type 0
IsRejected amount num denom =
    (amount <ℤ pos 0) ⊎ (num <ℤ pos 0) ⊎ (denom ≤ℤ pos 0) ⊎ (pos (2 ^ 127 - 1) <ℤ amount *ℤ num)

abbrev pub Exact : ℤ → ℤ → ℤ → Option ℤ → Type 0
Exact amount num denom none = IsRejected amount num denom
Exact amount num denom (some q) =
    (pos 0 ≤ℤ amount) × (pos 0 ≤ℤ num) × (pos 0 <ℤ denom) × IsFloor amount num denom q × IsI128 q

floor_le : (a n d : ℕ) → pos (a * n / suc d) *ℤ pos (suc d) ≤ℤ pos a *ℤ pos n
unfolding ◌*ℤ◌
floor_le a n d = ground arith

mul_pos : (a b : ℕ) → pos a *ℤ pos b ≡ pos (a * b)
unfolding ◌*ℤ◌
mul_pos a b = ground arith

add_pos : (a : ℕ) → pos a +ℤ pos 1 ≡ pos (a + 1)
unfolding ◌+ℤ◌
add_pos a = ground arith

floor_lt_of : (a n q k : ℕ) → a * n < q * k + k → pos a *ℤ pos n <ℤ (pos q +ℤ pos 1) *ℤ pos k
floor_lt_of a n q k h = rw (add_pos q, mul_pos a n, mul_pos (q + 1) k) (grind arith)

floor_lt : (a n d : ℕ) → pos a *ℤ pos n <ℤ (pos (a * n / suc d) +ℤ pos 1) *ℤ pos (suc d)
floor_lt a n d = floor_lt_of a n (a * n / suc d) (suc d) (lt-div-mul-add (ground arith))

quotient_fits : (p d : ℕ) → p < 2 ^ 127 → p / suc d < 2 ^ 127
quotient_fits p d h = let small = div-le_self p (suc d) in omega arith

Exact-if :
    (a n d : ℕ)
    → Exact
        (pos a)
        (pos n)
        (pos (suc d))
        (if ltb (a * n) (2 ^ 127) then some (pos (a * n / suc d)) else none)
unfolding ◌*ℤ◌ ◌+ℤ◌
Exact-if a n d = elim (Bool-cases (ltb (a * n) (2 ^ 127))) [
  | inl fits ↦ rw fits (
    omega arith,
    omega arith,
    omega arith,
    (omega arith, floor_le a n d, floor_lt a n d),
    (quotient_fits (a * n) d (ground arith), omega arith),
  )
  | inr over ↦ rw over (inr (inr (inr (ground arith))))
]

pub rejected_out_of_range :
    (amount num denom : ℤ)
    → (amount <ℤ pos 0) ⊎ (num <ℤ pos 0) ⊎ (denom ≤ℤ pos 0)
    → checked_mul_div amount num denom ≡ none
unfolding checked_mul_div
rejected_out_of_range amount num denom h = ground arith

-- `checked_mul_div` yields exactly the floor of `amount * num / denom`, within an `i128`, where no input
-- is negative and the denominator is positive; and it yields nothing only where an input is out of
-- range or the product does not fit an `i128`.
pub checked_mul_div-Exact :
    (amount num denom : ℤ) → Exact amount num denom (checked_mul_div amount num denom)
checked_mul_div-Exact (pos a) (pos n) (pos (suc d)) = rw (mul_div_pos a n d) (Exact-if a n d)
checked_mul_div-Exact (pos a) (pos n) (pos zero) =
    rw (rejected_out_of_range (pos a) (pos n) (pos zero) (omega arith))
      (inr (inr (inl (omega arith))))
checked_mul_div-Exact (pos a) (pos n) (negsuc d) =
    rw (rejected_out_of_range (pos a) (pos n) (negsuc d) (omega arith))
      (inr (inr (inl (omega arith))))
checked_mul_div-Exact (pos a) (negsuc n) denom =
    rw (rejected_out_of_range (pos a) (negsuc n) denom (omega arith)) (inr (inl (omega arith)))
checked_mul_div-Exact (negsuc a) num denom =
    rw (rejected_out_of_range (negsuc a) num denom (omega arith)) (inl (omega arith))

slippage_pos :
    (a b : ℕ)
    → min_out_with_slippage (pos a) (pos b) ≡ (
        if leb b 10000 && ltb (a * (10000 - b)) (2 ^ 127)
        then some (pos (a * (10000 - b) / 10000))
        else none)
unfolding min_out_with_slippage checked_mul_div checked_mul checked_div ◌-ℤ◌ ◌*ℤ◌
slippage_pos a b = ground arith

slippage_out_of_range :
    (amount bps : ℤ) → (amount <ℤ pos 0) ⊎ (bps <ℤ pos 0) → min_out_with_slippage amount bps ≡ none
unfolding min_out_with_slippage checked_mul_div
slippage_out_of_range amount bps h = ground arith

part_le : (a b : ℕ) → a * (10000 - b) / 10000 ≤ a
part_le a b = div-le_of_le-mul 10000 (less a (10000 - b) (ground arith))
  where
    less : (a n : ℕ) → n ≤ 10000 → a * n ≤ 10000 * a
    less a n h = let more = mul-le-mul_left a h in omega arith

part_mono : (a b b' : ℕ) → b ≤ b' → a * (10000 - b') / 10000 ≤ a * (10000 - b) / 10000
part_mono a b b' h = let more = mul-le-mul_left a (sub-le-sub_left h 10000) in omega arith

-- In parts of `bps_denom`, the amount is the bound, the slippage and a rest below one unit.
abbrev pub IsSplit : ℤ → ℤ → ℤ → Type 0
IsSplit amount bps m =
    (m *ℤ bps_denom +ℤ amount *ℤ bps ≤ℤ amount *ℤ bps_denom)
    × (amount *ℤ bps_denom <ℤ m *ℤ bps_denom +ℤ amount *ℤ bps +ℤ bps_denom)

split_parts :
    (a b : ℕ)
    → b ≤ 10000
    → let q = a * (10000 - b) / 10000 in
      (q * 10000 + a * b ≤ a * 10000) × (a * 10000 < q * 10000 + a * b + 10000)
split_parts a b h =
    let c = 10000 - b in
    let whole : a * b + a * c ≡ a * (b + c) = grind arith in
    let sum : b + c ≡ 10000 = omega arith in
    let all : a * b + a * c ≡ a * 10000 = whole ∙ ap (λ z. a * z) sum in (omega arith, omega arith)

part-IsSplit : (a b : ℕ) → b ≤ 10000 → IsSplit (pos a) (pos b) (pos (a * (10000 - b) / 10000))
unfolding ◌*ℤ◌ ◌+ℤ◌
part-IsSplit a b h = let (below, above) = split_parts a b h in (ground arith, ground arith)

abbrev pub SlippageVerdict : ℤ → ℤ → Option ℤ → Type 0
SlippageVerdict amount bps none =
    (bps <ℤ pos 0)
    ⊎ (bps_denom <ℤ bps)
    ⊎ (amount <ℤ pos 0)
    ⊎ (pos (2 ^ 127 - 1) <ℤ amount *ℤ (bps_denom -ℤ bps))
SlippageVerdict amount bps (some m) =
    (pos 0 ≤ℤ bps) × (bps ≤ℤ bps_denom) × (pos 0 ≤ℤ m) × (m ≤ℤ amount) × IsSplit amount bps m

SlippageVerdict-if :
    (a b : ℕ)
    → SlippageVerdict (pos a) (pos b) (
        if leb b 10000 && ltb (a * (10000 - b)) (2 ^ 127)
        then some (pos (a * (10000 - b) / 10000))
        else none)
unfolding ◌*ℤ◌ ◌-ℤ◌
SlippageVerdict-if a b = elim (Bool-cases (leb b 10000 && ltb (a * (10000 - b)) (2 ^ 127))) [
  | inl fits ↦ rw fits (
      let least = part_le a b in
      (omega arith, ground arith, omega arith, omega arith, part-IsSplit a b (ground arith)))
  | inr over ↦ rw over (ground arith)
]

-- `min_out_with_slippage` answers only for a slippage from 0 to 10000 and an amount that is not
-- negative, and gives nothing only where one of these fails or the product that it divides is beyond an
-- `i128`. Its bound lies between nothing and the amount: in ten-thousandths, the amount is the bound, the
-- slippage's share and a rest below one unit.
pub min_out_bounds :
    (amount bps : ℤ) → SlippageVerdict amount bps (min_out_with_slippage amount bps)
min_out_bounds (pos a) (pos b) = rw (slippage_pos a b) (SlippageVerdict-if a b)
min_out_bounds (pos a) (negsuc b) =
    rw (slippage_out_of_range (pos a) (negsuc b) (ground arith)) (inl (omega arith))
min_out_bounds (negsuc a) b =
    rw (slippage_out_of_range (negsuc a) b (ground arith)) (inr (inr (inl (omega arith))))

-- A larger slippage never raises the minimum.
pub min_out_mono :
    (amount bps bps' : ℤ) {m m' : ℤ}
    → bps ≤ℤ bps'
    → min_out_with_slippage amount bps ≡ some m
    → min_out_with_slippage amount bps' ≡ some m'
    → m' ≤ℤ m
min_out_mono (pos a) (pos b) (pos b') le h h' =
    let least = part_mono a b b' in
    let e = sym (slippage_pos a b) ∙ h in let e' = sym (slippage_pos a b') ∙ h' in ground arith
min_out_mono (pos a) (pos b) (negsuc b') le h h' = ground arith
min_out_mono (pos a) (negsuc b) b' le h h' =
    let e = sym (slippage_out_of_range (pos a) (negsuc b) (ground arith)) ∙ h in ground arith
min_out_mono (negsuc a) b b' le h h' =
    let e = sym (slippage_out_of_range (negsuc a) b (ground arith)) ∙ h in ground arith
