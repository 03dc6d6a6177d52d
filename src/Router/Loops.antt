-- ===== src/Router/Loops.antt =====
-- The indexed loops of `swap` and `validate_path` (contracts/router/src/lib.rs) as recursions on the
-- steps: an index never runs past the path.
use stellariq_contract.Prelude.{
  ℕ, ◌+◌, ◌≡◌, refl, ◌⊎◌, Option, none, some, List, [], ◌∷◌, length, IsFrom, IsFrom-start,
  IsFrom-head, IsFrom-tail, arith, inl,
}
use stellariq_contract.Soroban.{Address, Outcome, ok, err}
use stellariq_contract.Interfaces.{
  RouterError, discontinuous_path, invalid_min_out, protocol_not_found, SwapStep,
}
use stellariq_contract.Router.Storage.{State}
use stellariq_contract.Router.Swap.{validate_from, validate_path, check_protocols_from}
use stellariq_contract.Router.Spec.{IsRoute, first_fault, IsRegistered}

abbrev pub fault_outcome : Option RouterError → Outcome RouterError (Unit {0})
fault_outcome none = ok tt
fault_outcome (some e) = err e

module _ {W : Type 0} (path : List SwapStep) (s : State W) where
  validate_from-eq :
      (rest : List SwapStep) (i : ℕ) (cursor token_out : Address)
      → IsFrom path i rest
      → validate_from (length rest) i cursor token_out path s
        ≡ (fault_outcome (first_fault cursor token_out rest), s)
  unfolding validate_from
  validate_from-eq [] i cursor token_out h = ground arith
  validate_from-eq (x ∷ rest) i cursor token_out h = ground (
    arith,
    IsFrom-head path i x rest h,
    validate_from-eq rest (i + 1) x.token_out token_out (IsFrom-tail path i x rest h),
  )

  -- `validate_path` reports the first fault, and changes nothing.
  pub validate_path-eq :
      (token_in token_out : Address)
      → validate_path token_in token_out path s
        ≡ (fault_outcome (first_fault token_in token_out path), s)
  unfolding validate_path
  validate_path-eq token_in token_out =
      validate_from-eq path 0 token_in token_out (IsFrom-start path)

  abbrev pub Checked : List SwapStep → Outcome RouterError (Unit {0}) × State W → Type 0
  Checked rest r =
      ((r ≡ (ok tt, s)) × IsRegistered s.protocols rest)
      ⊎ ((r ≡ (err protocol_not_found, s)) × ¬ IsRegistered s.protocols rest)

  check_from :
      (rest : List SwapStep) (i : ℕ)
      → IsFrom path i rest
      → Checked rest (check_protocols_from (length rest) i path s)
  unfolding check_protocols_from
  check_from [] i h = inl (refl, tt)
  check_from (x ∷ rest) i h =
      ground
        (arith, IsFrom-head path i x rest h, check_from rest (i + 1) (IsFrom-tail path i x rest h))

  -- The protocol loop succeeds exactly where every protocol is registered, and changes nothing.
  pub check_protocols_lem : Checked path (check_protocols_from (length path) 0 path s)
  check_protocols_lem = check_from path 0 (IsFrom-start path)

-- A list of steps is a route, or its first fault is a break or a negative minimum.
abbrev pub FaultCases : Address → Address → List SwapStep → Option RouterError → Type 0
FaultCases cursor token_out path fault =
    ((fault ≡ none) × IsRoute cursor token_out path)
    ⊎ ((fault ≡ some discontinuous_path) × ¬ IsRoute cursor token_out path)
    ⊎ ((fault ≡ some invalid_min_out) × ¬ IsRoute cursor token_out path)

pub first_fault-cases :
    (cursor token_out : Address) (path : List SwapStep)
    → FaultCases cursor token_out path (first_fault cursor token_out path)
first_fault-cases cursor token_out [] = ground arith
first_fault-cases cursor token_out (x ∷ path) =
    ground (arith, first_fault-cases x.token_out token_out path)
