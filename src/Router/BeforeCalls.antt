-- ===== src/Router/BeforeCalls.antt =====
-- The steps of `Router::swap` before its execution loop (contracts/router/src/lib.rs): they report none of
-- the loop's errors, and keep the protocol registry.
use stellariq_contract.Prelude.{ℕ, ◌≡◌, Option, List, ℤ, arith}
use stellariq_contract.Soroban.{Address, Env, Tokens, ok, err, ok_or}
use stellariq_contract.Interfaces.{RouterError, empty_path, SwapStep, Adapters}
use stellariq_contract.Router.Storage.{State, next_nonce}
use stellariq_contract.Router.Swap.{token_transfer}
use stellariq_contract.Router.Preflight.{BadTerms, BadRoute}
use stellariq_contract.Router.CallCount.{IsEarly}

pub BadTerms-IsEarly :
    {W : Type 0} (tokens : Tokens W) (adapters : Adapters W) (env : Env) (trader : Address)
    (amount_in amount_out_min : ℤ) (path : List SwapStep) (deadline : ℕ) (s : State W)
    (e : RouterError)
    → BadTerms tokens adapters env trader amount_in amount_out_min path deadline s e
    → IsEarly e
BadTerms-IsEarly tokens adapters env trader amount_in amount_out_min path deadline s e bad =
    ground arith

pub BadRoute-IsEarly :
    {W : Type 0} (tokens : Tokens W) (adapters : Adapters W) (env : Env)
    (trader token_in token_out : Address) (amount_in : ℤ) (path : List SwapStep) (s : State W)
    (e : RouterError)
    → BadRoute tokens adapters env trader token_in token_out amount_in path s e
    → IsEarly e
BadRoute-IsEarly tokens adapters env trader token_in token_out amount_in path s e bad = ground arith

pub next_nonce-IsEarly :
    {W : Type 0} (s : State W) (e : RouterError) (u : State W)
    → next_nonce s ≡ (err e, u)
    → IsEarly e
unfolding next_nonce
next_nonce-IsEarly s e u ran = ground arith

pub token_transfer-IsEarly :
    {W : Type 0} (tokens : Tokens W) (adapters : Adapters W) (env : Env) (token from to : Address)
    (amount : ℤ) (s : State W) (e : RouterError) (u : State W)
    → token_transfer tokens adapters env token from to amount s ≡ (err e, u)
    → IsEarly e
unfolding token_transfer
token_transfer-IsEarly tokens adapters env token from to amount s e u ran = ground arith

pub ok_or-IsEarly :
    {W : Type 0} (o : Option ℕ) (s : State W) (e : RouterError) (u : State W)
    → ok_or o empty_path s ≡ (err e, u)
    → IsEarly e
ok_or-IsEarly o s e u ran = ground arith

pub nonce_keeps_protocols :
    {W : Type 0} (s : State W) (id : ℕ) (u : State W)
    → next_nonce s ≡ (ok id, u)
    → u.protocols ≡ s.protocols
unfolding next_nonce
nonce_keeps_protocols s id u ran = ground arith

pub pull_keeps_protocols :
    {W : Type 0} (tokens : Tokens W) (adapters : Adapters W) (env : Env) (token from to : Address)
    (amount : ℤ) (s : State W) (done : Unit {0}) (u : State W)
    → token_transfer tokens adapters env token from to amount s ≡ (ok done, u)
    → u.protocols ≡ s.protocols
unfolding token_transfer
pull_keeps_protocols tokens adapters env token from to amount s done u ran = ground arith

pub count_keeps_protocols :
    {W : Type 0} (o : Option ℕ) (e : RouterError) (s : State W) (n : ℕ) (u : State W)
    → ok_or o e s ≡ (ok n, u)
    → u.protocols ≡ s.protocols
count_keeps_protocols o e s n u ran = ground arith
