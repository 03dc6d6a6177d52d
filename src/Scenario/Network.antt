-- ===== src/Scenario/Network.antt =====
-- The network of contracts/router/src/fixture.rs: three tokens, two pools, one test adapter.
use stellariq_contract.Prelude.{
  ℕ, ◌+◌, ◌-◌, Bool, true, false, ◌&&◌, ◌||◌, Option, none, some, [], ◌==◌, ltb, if◌then◌else◌, ℤ,
  pos, negsuc, empty, put, nat_eq, string_eq,
}
use stellariq_contract.Soroban.{Address, Env, Tokens}
use stellariq_contract.Interfaces.{Adapters, SwapStep}
use stellariq_contract.TestAdapter
use stellariq_contract.Router
use stellariq_contract.Composition.{tokens_below, test_adapters}

abbrev pub admin : Address
admin = 1

abbrev pub trader : Address
trader = 2

abbrev pub router_id : Address
router_id = 3

abbrev pub adapter_id : Address
adapter_id = 4

abbrev pub give_id : Address
give_id = 10

abbrev pub token_a : Address
token_a = 7

abbrev pub token_b : Address
token_b = 8

abbrev pub token_c : Address
token_c = 9

abbrev pub pool : Address
pool = 5

abbrev pub pool2 : Address
pool2 = 6

-- The balances of all tokens: token, holder.
abbrev pub Ledger : Type 0
Ledger = Address → Address → ℕ

abbrev pub no_funds : Ledger
no_funds token holder = 0

abbrev pub credit : Address → Address → ℕ → Ledger → Ledger
credit token holder amount m t h = if t == token && h == holder then m t h + amount else m t h

abbrev pub debit : Address → Address → ℕ → Ledger → Ledger
debit token holder amount m t h = if t == token && h == holder then m t h - amount else m t h

-- The three tokens. A transfer is made by its payer, or for the trader by the router or the
-- donations contract.
abbrev pub is_token : Address → Bool
is_token t = t == token_a || t == token_b || t == token_c

abbrev pub may_spend : Address → Address → Bool
may_spend invoker from =
    invoker == from || ((invoker == router_id || invoker == give_id) && from == trader)

abbrev pub plain_transfer : Ledger → Address → Address → Address → Address → ℤ → Option Ledger
plain_transfer m invoker token from to (negsuc n) = none
plain_transfer m invoker token from to (pos n) =
    if ltb (m token from) n
    then none
    else if is_token token && may_spend invoker from
    then some (credit token to n (debit token from n m))
    else none

abbrev pub plain_mint : Ledger → Address → Address → ℤ → Option Ledger
plain_mint m token to (negsuc n) = none
plain_mint m token to (pos n) = if is_token token then some (credit token to n m) else none

abbrev pub plain_tokens : Tokens Ledger
plain_tokens = record {
  balance = λ m token holder. if is_token token then some (pos (m token holder)) else none;
  transfer = plain_transfer;
}

abbrev pub adapter_env : Env
adapter_env = record {
  contract = adapter_id;
  timestamp = 1000;
  sequence = 0;
  signed = λ a. false;
  uploaded = λ h. false;
}

-- The state of all contracts but the router is that of the test adapter, over the ledgers.
abbrev pub Others : Type 0
Others = TestAdapter.State Ledger

abbrev pub tokens : Tokens Others
tokens = tokens_below plain_tokens

abbrev pub adapters : Adapters Others
adapters = test_adapters plain_tokens adapter_env

abbrev pub others : Others
others = record {
  admin = some admin;
  rate = empty;
  fail = empty;
  misreport = empty;
  world = no_funds;
}

-- Everybody signs, as under `mock_all_auths`.
abbrev pub env : Env
env = record {
  contract = router_id;
  timestamp = 1000;
  sequence = 0;
  signed = λ a. true;
  uploaded = λ h. true;
}

-- The router after `initialize` and `set_protocol`, with the funds given to trader and adapter.
abbrev pub router_with : Others → Router.State Others
router_with w = record {
  admin = some admin;
  paused = some false;
  nonce = some 0;
  protocols = put "test" adapter_id empty;
  code = 0;
  events = [];
  extensions = [];
  world = w;
}

abbrev pub step_on : Address → Address → Address → ℤ → SwapStep
step_on pool token_in token_out min = record {
  protocol = "test";
  pool = pool;
  token_in = token_in;
  token_out = token_out;
  amount_out_min = min;
}
