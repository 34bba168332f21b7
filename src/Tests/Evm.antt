-- ===== src/Tests/Evm.antt =====
-- An EVM client whose nodes answer, at deposits of the native token and of an ERC20 token.
use relayer_svc.Base.{◌≡◌, refl, ◌⊎◌, false, none, some, [], ◌∷◌, pos, if◌then◌else◌}
use relayer_svc.Types.{err_parse}
use relayer_svc.Db.{Deposit}
use relayer_svc.Db.Text.{text_eq}
use relayer_svc.Chain.{
  Bytes, default_native_token_address, set_string, set_string_codes, read_number,
}
use relayer_svc.Observer.Numbers.{read_digits}
use relayer_svc.Attempt.{◌>>=◌, pure, or_raise}
use relayer_svc.Outbox.{ask, ask_again, with_retry}
use relayer_svc.Evm.{
  Ethereum, Node, Client, Wire, Call, names, bridge_methods, receipt_status, receipts,
  prepare_tx_opts, get_block_with_retry,
}
use relayer_svc.Evm.Data.{
  tx_hash_to_bytes32, decode_proof, merkle_proof_parsing, pack_withdrawal, get_withdrawal_tx_data,
  get_withdrawal_tx_hash,
}
use relayer_svc.Evm.Finalize.{
  finalizer, finalize, follow_subscription, follow, at_deadline, unless_skipped, find_receipt,
  verdict,
}
use relayer_svc.Evm.Withdraw.{
  withdraw, run_withdraw, submit, await, transact, get_withdraw_func, prepare_native, make_ready,
  read_fields,
}
use relayer_svc.Evm.Sends.{IsFailure, IsWithdrawal, sent-withdraw}
use relayer_svc.Evm.Finality.{IsOnlyAnswer, IsFinal, error_of, hash_of, withdraw-IsFinal}
use relayer_svc.Evm.Refused.{withdraw-native_merkelized}
use relayer_svc.Tests.{first, once}

abbrev pub ethereum : Ethereum
ethereum = record {
  decode_hex = λ s. some (1 ∷ []);
  keccak256 = λ b. b;
  hex_to_address = λ s. 2 ∷ [];
  address_text = λ b. "0x02";
  hash_text = λ b. "0x09";
  unmarshal_strings = λ s. some [];
  pack = λ n c. if names bridge_methods n then some (3 ∷ []) else none;
  pack_unknown = λ n c h. rw h refl;
}

abbrev sent_hash : Bytes
sent_hash = 9 ∷ []

abbrev pub node : Node
node = record {
  suggest_gas_price = λ n. some 10;
  chain_id = λ n. some 1;
  pending_nonce = λ n b. some 4;
  estimate_gas = λ n m. some 21000;
  header_number = λ n. some (pos 100);
  contains_hash = λ n h i. some false;
  sign_tx = λ b t. some (8 ∷ []);
  transact = λ n o c. some sent_hash;
  wait_mined = λ n h. some 1;
  subscribe_new_head = λ n. some (record { headers = pos 101 ∷ []; closes = false });
  transaction_receipt = λ n h. receipt_status 1;
  block_receipts = λ n b. receipts ((sent_hash, 1) ∷ []);
}

abbrev pub client : Client
client = record {
  ethereum = ethereum;
  node = node;
  bridge_address = 7 ∷ [];
  gas_price_multiplier = pos 110;
  retry_header = once;
  retry_subscription = once;
  retry_finalizer = once;
}

abbrev pub quiet : Wire
quiet = record { sent = []; calls = 0 }

abbrev pub native : Deposit
native = record first {
  withdrawal_token = default_native_token_address;
  withdrawal_amount = "1000";
  signature = "0x01";
}

abbrev with_proof : Deposit
with_proof = record native { merkle_proof = "[]" }

sent-withdraw_example :
    (IsFailure (withdraw client native (5 ∷ []) quiet).0.1
      × ((withdraw client native (5 ∷ []) quiet).1.sent ≡ []))
    ⊎ ((call : Call) × IsWithdrawal client native call
        × ((withdraw client native (5 ∷ []) quiet).1.sent ≡ call ∷ []))
sent-withdraw_example = sent-withdraw client native (5 ∷ []) quiet

is_done : error_of (withdraw client native (5 ∷ []) quiet).0.1 ≡ none
unfolding withdraw run_withdraw submit await transact get_withdraw_func prepare_native make_ready
    read_fields ◌>>=◌ pure or_raise prepare_tx_opts get_block_with_retry with_retry ask ask_again
    finalizer finalize follow_subscription follow at_deadline unless_skipped find_receipt verdict
    get_withdrawal_tx_data get_withdrawal_tx_hash pack_withdrawal merkle_proof_parsing decode_proof
    tx_hash_to_bytes32 set_string set_string_codes read_number read_digits text_eq
is_done = refl

withdraw-IsFinal_example :
    (hash : Bytes) × IsOnlyAnswer client [] (withdraw client native (5 ∷ []) quiet).1.sent hash
    × IsFinal client hash (withdraw client native (5 ∷ []) quiet).1.calls
    × (hash_of (withdraw client native (5 ∷ []) quiet).0.1 ≡ ethereum.hash_text hash)
withdraw-IsFinal_example = withdraw-IsFinal client native (5 ∷ []) quiet is_done

withdraw-native_merkelized_example :
    withdraw client with_proof (5 ∷ []) quiet ≡ (("0x02", ("", pos 0, some err_parse)), quiet)
withdraw-native_merkelized_example =
    withdraw-native_merkelized client with_proof (5 ∷ []) quiet refl refl
