-- ===== src/Env.antt =====
-- What the service talks to and does not implement: Postgres, the chains' clients, the core node and
-- the clock. Each answers by the number of calls made so far, so an answer may change from call to
-- call.
use relayer_svc.Base.{ℕ, ℤ, String, Bool, Option, List}
use relayer_svc.Db.{Deposit, Epoch}

-- What `ChildClient.Withdraw` returns: its three values stand beside the error too. A call that panics
-- returns nothing, and the values say nothing then.
pub record Withdrawal : Type 0 where
  pub operator : String
  pub tx_hash : String
  pub block : ℤ
  pub fails : Bool
  pub panics : Bool

-- `bridgetypes.Transaction` of the core, the fields that the service uses.
pub record Transaction : Type 0 where
  pub deposit_chain_id : String
  pub deposit_tx_hash : String
  pub deposit_tx_index : ℕ
  pub deposit_block : ℕ
  pub deposit_token : String
  pub deposit_amount : String
  pub depositor : String
  pub receiver : String
  pub withdrawal_chain_id : String
  pub withdrawal_tx_hash : String
  pub withdrawal_token : String
  pub signature : String
  pub is_wrapped : Bool
  pub withdrawal_amount : String
  pub commission_amount : String
  pub tx_data : String
  pub referral_id : ℕ

-- `QueryTransactionByIdRequest` and what the query answers: a transaction, an error that says
-- "not found", or another error.
pub record TransactionQuery : Type 0 where
  pub chain_id : String
  pub tx_hash : String
  pub tx_nonce : ℕ

pub data TransactionAnswer : Type 0 where
  found : Transaction → TransactionAnswer
  missing unreachable : TransactionAnswer

-- A signed transaction of the core; a message is nil or updates a transaction.
pub record CoreTx : Type 0 where
  pub messages : List (Option Transaction)
  pub gas_limit : ℕ
  pub fee_amount : ℕ
  pub sequence : ℕ

pub record Environment : Type 0 where
  -- The statement sent as call number n fails and changes no row.
  pub db_fault : ℕ → Bool
  pub now : ℕ → ℤ
  -- `IsProcessed` of the deposit's withdrawal chain; `none` is an error.
  pub is_processed : ℕ → Deposit → Option Bool
  pub withdraw : ℕ → Deposit → Withdrawal
  -- `UpdateSigners` of the epoch's chain succeeds.
  pub update_signers : ℕ → Epoch → Bool
  -- It panics.
  pub update_panics : ℕ → Epoch → Bool
  -- `ABCIInfo`'s last block height; `none` is an error.
  pub abci_height : ℕ → Option ℤ
  pub transaction_by_id : ℕ → TransactionQuery → TransactionAnswer
  -- `SetMsgs` of the transaction builder accepts the messages.
  pub set_msgs : List (Option Transaction) → Bool
  -- The account's sequence; `none` is an error.
  pub account_sequence : ℕ → Option ℕ
  -- Signing and encoding succeed.
  pub signs : CoreTx → Bool
  -- `BroadcastTx`: the response's code; `none` is an error.
  pub broadcast_tx : ℕ → CoreTx → Option ℕ

-- The state outside the process: the tables, the withdrawals sent to the chains and the
-- transactions sent to the core (latest first), and the number of calls made.
pub record World : Type 0 where
  pub deposits : List Deposit
  pub epochs : List Epoch
  pub latest_block : Option ℤ
  pub sent : List Deposit
  pub core_txs : List CoreTx
  pub calls : ℕ
