-- ===== src/Router/CallBound.antt =====
-- How many adapters one `Router::swap` calls (contracts/router/src/lib.rs).
use stellariq_contract.Prelude.{ℕ, ◌≤◌, ◌<◌, sym, ◌∙◌, subst, List, length, ℤ, arith}
use stellariq_contract.Soroban.{Address, Env, Tokens, ok_or}
use stellariq_contract.Interfaces.{empty_path, SwapStep, Adapters, max_hops}
use stellariq_contract.Router.Storage.{State}
use stellariq_contract.Router.Swap.{
  checked_pred, token_transfer, check_terms, check_route, settlement, swap,
}
use stellariq_contract.Router.Spec.{IsRegistered}
use stellariq_contract.Router.Preflight.{
  TermsVerdict, RouteVerdict, check_terms-Verdict, check_route-Verdict,
}
use stellariq_contract.Router.Settlement.{run_hops}
use stellariq_contract.Router.Tracking.{EndsAs, quiet_then, Tracks-ok_or}
use stellariq_contract.Router.Metering.{meter, unmetered, metered, token_transfer-Tracks}
use stellariq_contract.Router.MeteredChecks.{check_terms-Tracks, check_route-Tracks}
use stellariq_contract.Router.LoopCalls.{Fine, run_hops-Fine}
use stellariq_contract.Router.BeforeCalls.{
  BadTerms-IsEarly, BadRoute-IsEarly, token_transfer-IsEarly, ok_or-IsEarly, pull_keeps_protocols,
  count_keeps_protocols,
}
use stellariq_contract.Router.CallCount.{CallsFor, none_made, after_route, after_terms, after_pull}

module _ {W : Type 0} (tokens : Tokens W) (adapters : Adapters W) (env : Env)
    (trader token_in token_out : Address) (amount_in amount_out_min : ℤ) (deadline : ℕ)
    (path : List SwapStep) (few : length path ≤ max_hops) (some_hops : 0 < length path) where
  settlement-Fine :
      (s : State W)
      → IsRegistered s.protocols path
      → Fine tokens adapters env trader token_in token_out amount_in amount_out_min deadline path
          few some_hops
          (settlement tokens adapters env trader token_in token_out amount_in amount_out_min path)
          (settlement
            (unmetered tokens)
            (metered adapters)
            env
            trader
            token_in
            token_out
            amount_in
            amount_out_min
            path)
          s
  unfolding settlement
  settlement-Fine s h =
      quiet_then
        (after_pull (unmetered tokens) (metered adapters) env trader token_in token_out amount_in
          amount_out_min path)
        (token_transfer tokens adapters env token_in trader env.contract amount_in)
        (token_transfer (unmetered tokens) (metered adapters) env token_in trader env.contract
          amount_in)
        s (token_transfer-Tracks tokens adapters env token_in trader env.contract amount_in)
        (λ e u ran. none_made (length path) e (
          token_transfer-IsEarly tokens adapters env token_in trader env.contract amount_in s e u
            ran))
        (omega arith, omega arith)
        (λ a u ran.
          quiet_then
            (run_hops (unmetered tokens) (metered adapters) env trader token_in token_out amount_in
              amount_out_min path)
            (ok_or (checked_pred (length path)) empty_path)
            (ok_or (checked_pred (length path)) empty_path) u
            (Tracks-ok_or (checked_pred (length path)) empty_path)
            (λ e v stopped.
              none_made (length path) e (ok_or-IsEarly (checked_pred (length path)) u e v stopped))
            (omega arith, omega arith)
            (λ last v counted.
              run_hops-Fine tokens adapters env trader token_in token_out amount_in amount_out_min
                deadline path few some_hops last v
                (subst (λ z. IsRegistered z path)
                  (sym (
                    count_keeps_protocols (checked_pred (length path)) empty_path u last v counted
                    ∙ pull_keeps_protocols tokens adapters env token_in trader env.contract
                        amount_in s a u ran))
                  h)))

module _ {W : Type 0} (tokens : Tokens W) (adapters : Adapters W) (env : Env)
    (trader token_in token_out : Address) (amount_in amount_out_min : ℤ) (deadline : ℕ)
    (path : List SwapStep) (s : State W) where
  -- Among contracts that count the calls of adapters, failed ones included, `swap` ends with the same
  -- outcome and storage, and counts: one call for each hop, which are at most five, where it returns; none
  -- where it reports another error than `SwapFailed` or `InsufficientOutput`; at least one where it reports
  -- one of these two; and, where it reports one of them or traps, at most one for each hop and at most five.
  pub swap_calls :
      EndsAs meter
        (CallsFor (length path))
        (swap tokens adapters env trader token_in token_out amount_in amount_out_min deadline path
          s)
        (swap
          (unmetered tokens)
          (metered adapters)
          env
          trader
          token_in
          token_out
          amount_in
          amount_out_min
          deadline
          path
          (meter s 0))
  unfolding swap
  swap_calls =
      quiet_then
        (after_terms (unmetered tokens) (metered adapters) env trader token_in token_out amount_in
          amount_out_min path)
        (check_terms tokens adapters env trader amount_in amount_out_min deadline path)
        (check_terms (unmetered tokens) (metered adapters) env trader amount_in amount_out_min
          deadline path)
        s
        (check_terms-Tracks tokens adapters env trader token_in token_out amount_in amount_out_min
          deadline path)
        (λ e u ran. none_made (length path) e (
          let (_, bad) =
            subst (TermsVerdict tokens adapters env trader amount_in amount_out_min path deadline s)
              ran
              (check_terms-Verdict tokens adapters env trader amount_in amount_out_min path deadline
                s) in
          BadTerms-IsEarly tokens adapters env trader amount_in amount_out_min path deadline s e
            bad))
        (omega arith, omega arith)
        (λ a u ran.
          let (_, terms) =
            subst (TermsVerdict tokens adapters env trader amount_in amount_out_min path deadline s)
              ran
              (check_terms-Verdict tokens adapters env trader amount_in amount_out_min path deadline
                s) in
          quiet_then
            (after_route (unmetered tokens) (metered adapters) env trader token_in token_out
              amount_in amount_out_min path)
            (check_route tokens adapters env trader token_in token_out amount_in path)
            (check_route (unmetered tokens) (metered adapters) env trader token_in token_out
              amount_in path)
            u
            (check_route-Tracks tokens adapters env trader token_in token_out amount_in
              amount_out_min deadline path)
            (λ e v stopped. none_made (length path) e (
              let (_, bad) =
                subst (RouteVerdict tokens adapters env trader token_in token_out amount_in path u)
                  stopped
                  (check_route-Verdict tokens adapters env trader token_in token_out amount_in path
                    u) in
              BadRoute-IsEarly tokens adapters env trader token_in token_out amount_in path u e
                bad))
            (omega arith, omega arith)
            (λ b v passed.
              let (same, route) =
                subst (RouteVerdict tokens adapters env trader token_in token_out amount_in path u)
                  passed
                  (check_route-Verdict tokens adapters env trader token_in token_out amount_in path
                    u) in
              settlement-Fine tokens adapters env trader token_in token_out amount_in amount_out_min
                deadline path terms.bounded terms.nonempty v
                (subst (λ (z : State W). IsRegistered z.protocols path) (sym same)
                  route.registered)))
