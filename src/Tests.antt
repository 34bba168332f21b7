-- ===== src/Tests.antt =====
-- Inputs for tests: an environment in which everything works, and one deposit.
mod Containers
mod Broadcaster
mod Core
mod Api
mod Observer
mod Evm
mod Solana
mod Ton
mod Served
mod Startup
use relayer_svc.Base.{
  ℕ, pos, String, Bool, true, false, not, Option, none, some, List, [], ◌∷◌, refl, ◌≡◌,
}
use relayer_svc.Db.{DepositIdentifier, Deposit, empty_deposit}
use relayer_svc.Types.{failed, submitting_to_core}
use relayer_svc.Env.{Environment, World, Transaction, missing, found}
use relayer_svc.Retry.{Retrier, last}
use relayer_svc.Repository.{Client, Clients}
use relayer_svc.Connector.{to_transaction}
use relayer_svc.Broadcaster.{Config, Service, Task}
use relayer_svc.Broadcaster.Blocked.{has_nil}

abbrev calm : Environment
calm = record {
  db_fault = λ n. false;
  now = λ n. pos 1000;
  is_processed = λ n d. some false;
  withdraw = λ n d. record {
    operator = "op";
    tx_hash = "0xabc";
    block = pos 7;
    fails = false;
    panics = false;
  };
  update_signers = λ n e. true;
  update_panics = λ n e. false;
  abci_height = λ n. some (pos 9);
  transaction_by_id = λ n q. missing;
  set_msgs = λ ms. not (has_nil ms);
  account_sequence = λ n. some 1;
  signs = λ tx. true;
  broadcast_tx = λ n tx. some 0;
}

abbrev first_id : DepositIdentifier
first_id = record { tx_hash = "0x01"; tx_nonce = pos 0; chain_id = "sol" }

abbrev first : Deposit
first = record empty_deposit { identifier = first_id; withdrawal_chain_id = "eth" }

abbrev second : Deposit
second = record empty_deposit {
  identifier = record { tx_hash = "0x02"; tx_nonce = pos 1; chain_id = "sol" };
  withdrawal_chain_id = "eth";
}

abbrev empty_world : World
empty_world = record {
  deposits = [];
  epochs = [];
  latest_block = none;
  sent = [];
  core_txs = [];
  calls = 0;
}

abbrev one_row : World
one_row = record empty_world { deposits = first ∷ [] }

abbrev eth : Client
eth = record { chain_id = "eth"; workers_count = 1; child_clients = 2 }

abbrev config : Config
config = record {
  clients = ("eth", eth) ∷ [];
  recovery_attempts = 3;
  recovery_timeout = pos 60;
  submit_batch_size = 1;
  min_gas_price = 1;
}

abbrev idle : Service
idle = record { world = empty_world; cache = []; withdrawals = []; signers = []; submissions = [] }

-- The row of a withdrawal that failed twice.
abbrev failed_twice : Deposit
failed_twice = record first {
  withdrawal_status = failed;
  recovery_attempts = pos 2;
  recovery_timestamp = pos 0;
}

abbrev after_failure : Service
after_failure = record idle { world = record empty_world { deposits = failed_twice ∷ [] } }

abbrev once : {S : Type 0} → Retrier S
once = record { do_with_retry = λ f s. f s; runs = λ f s. last refl }

-- The core has a withdrawal hash for every deposit.
abbrev reporting : Environment
reporting = record calm {
  transaction_by_id =
      λ n q. found (to_transaction (record first { withdrawal_tx_hash = some "0xabc" }));
}
