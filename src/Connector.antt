-- ===== src/Connector.antt =====
-- internal/core/connector: the service's calls of the core node.
pub mod Update
pub mod RoundTrip
use relayer_svc.Base.{
  ◌+◌, ◌%◌, ◌^◌, ℤ, String, Option, none, some, str_eq, if◌then◌else◌, State, to_uint64, to_int64,
  pos, false, ◌≡◌,
}
use relayer_svc.Types.{Error, err_core, err_not_found, Result, ok, err, unspecified}
use relayer_svc.Db.{DepositIdentifier, Deposit, empty_deposit}
use relayer_svc.Env.{
  Environment, World, Transaction, TransactionQuery, TransactionAnswer, found, missing, unreachable,
}

-- `nilOrNotEmpty`
unfoldable pub nil_or_not_empty : String → Option String
nil_or_not_empty s = if str_eq s "" then none else some s

-- `emptyOrString`
unfoldable pub empty_or_string : Option String → String
empty_or_string none = ""
empty_or_string (some s) = s

unfoldable pub tx_to_deposit : Transaction → Deposit
unfolding nil_or_not_empty
tx_to_deposit tx = record empty_deposit {
  identifier = record {
    tx_hash = tx.deposit_tx_hash;
    tx_nonce = to_int64 tx.deposit_tx_index;
    chain_id = tx.deposit_chain_id;
  };
  depositor = tx.depositor;
  deposit_amount = tx.deposit_amount;
  deposit_token = tx.deposit_token;
  receiver = tx.receiver;
  withdrawal_token = tx.withdrawal_token;
  deposit_block = to_int64 tx.deposit_block;
  commission_amount = tx.commission_amount;
  referral_id = tx.referral_id % 2 ^ 16;
  withdrawal_status = unspecified;
  withdrawal_tx_hash = nil_or_not_empty tx.withdrawal_tx_hash;
  withdrawal_chain_id = tx.withdrawal_chain_id;
  withdrawal_amount = tx.withdrawal_amount;
  is_wrapped_token = tx.is_wrapped;
  tx_data = tx.tx_data;
  signature = tx.signature;
}

unfoldable pub to_transaction : Deposit → Transaction
unfolding empty_or_string
to_transaction d = record {
  deposit_chain_id = d.chain_id;
  deposit_tx_hash = d.tx_hash;
  deposit_tx_index = to_uint64 d.tx_nonce;
  deposit_block = to_uint64 d.deposit_block;
  deposit_token = d.deposit_token;
  deposit_amount = d.deposit_amount;
  depositor = d.depositor;
  receiver = d.receiver;
  withdrawal_chain_id = d.withdrawal_chain_id;
  withdrawal_tx_hash = empty_or_string d.withdrawal_tx_hash;
  withdrawal_token = d.withdrawal_token;
  signature = d.signature;
  is_wrapped = d.is_wrapped_token;
  withdrawal_amount = d.withdrawal_amount;
  commission_amount = d.commission_amount;
  tx_data = d.tx_data;
  referral_id = d.referral_id;
}

unfoldable pub to_query : DepositIdentifier → TransactionQuery
to_query id = record {
  chain_id = id.chain_id;
  tx_hash = id.tx_hash;
  tx_nonce = to_uint64 id.tx_nonce;
}

unfoldable pub read_answer : TransactionAnswer → Result Deposit
read_answer (found tx) = ok (tx_to_deposit tx)
read_answer missing = err err_not_found
read_answer unreachable = err err_core

unfoldable pub get_deposit : Environment → DepositIdentifier → State World (Result Deposit)
unfolding read_answer to_query
get_deposit env id w =
    (read_answer (env.transaction_by_id w.calls (to_query id)), record w { calls = w.calls + 1 })
