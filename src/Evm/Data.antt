-- ===== src/Evm/Data.antt =====
-- internal/core/chain/evm/{utils,data}.go, and `IsProcessed` of client.go.
use relayer_svc.Base.{
  ℕ, ℤ, String, str_eq, Bool, Option, none, some, List, [], ◌∷◌, length, ◌==◌, case_option,
  if◌then◌else◌,
}
use relayer_svc.Db.{Deposit}
use relayer_svc.Attempt.{Attempt}
use relayer_svc.Chain.{Bytes, bytes_of, set_string}
use relayer_svc.Evm.{
  call_native, call_erc20, call_erc20_merkelized, call_native_merkelized, Ethereum, Client, Wire,
  TransactOpts,
}
use relayer_svc.Outbox.{ask}

abbrev pub digest_length : ℕ
digest_length = 32

-- `txHashToBytes32`
unfoldable pub tx_hash_to_bytes32 : Ethereum → String → Bytes
tx_hash_to_bytes32 eth s =
    case_option (eth.decode_hex s) (eth.keccak256 (bytes_of s))
      λ b. if length b == digest_length then b else eth.keccak256 (bytes_of s)

-- The loop over the proof's texts.
unfoldable pub decode_proof : Ethereum → List String → Option (List Bytes)
decode_proof eth [] = some []
decode_proof eth (s ∷ ss) =
    let rest = decode_proof eth ss in
    case_option (eth.decode_hex s) none
      λ b. if length b == digest_length then case_option rest none (λ bs. some (b ∷ bs)) else none

-- `merkleProofParsing`
unfoldable pub merkle_proof_parsing : Ethereum → String → Option (List Bytes)
unfolding decode_proof
merkle_proof_parsing eth s =
    if str_eq s "" then some [] else case_option (eth.unmarshal_strings s) none (decode_proof eth)

-- The methods' names of types.go.
abbrev pub withdraw_erc20 : String
withdraw_erc20 = "withdrawERC20"

abbrev pub withdraw_native : String
withdraw_native = "withdrawNative"

abbrev pub withdraw_erc20_merkelized : String
withdraw_erc20_merkelized = "withdrawERC20Merkelized"

abbrev pub withdraw_native_merkelized : String
withdraw_native_merkelized = "withdrawNativeMerklelized"

-- The switch on the method, once the fields are parsed.
unfoldable pub pack_withdrawal : Ethereum → String → Deposit → ℤ → Bytes → List Bytes → Option Bytes
unfolding tx_hash_to_bytes32
pack_withdrawal eth method d amount signature proof =
    let receiver = eth.hex_to_address d.receiver in
    let token = eth.hex_to_address d.withdrawal_token in
    let hash = tx_hash_to_bytes32 eth d.tx_hash in
    if str_eq method withdraw_native
    then eth.pack withdraw_native (call_native amount receiver hash d.tx_nonce (signature ∷ []))
    else if str_eq method withdraw_erc20
    then eth.pack withdraw_erc20
        (call_erc20 token amount receiver hash d.tx_nonce d.is_wrapped_token (signature ∷ []))
    else if str_eq method withdraw_erc20_merkelized
    then eth.pack withdraw_erc20_merkelized (
        call_erc20_merkelized token amount receiver hash d.tx_nonce d.is_wrapped_token proof
          (signature ∷ []))
    else if str_eq method withdraw_native_merkelized
    then eth.pack withdraw_native_merkelized
        (call_native_merkelized amount receiver hash d.tx_nonce proof (signature ∷ []))
    else none

-- `getWithdrawalTxData`
unfoldable pub get_withdrawal_tx_data : Ethereum → String → Deposit → Option Bytes
unfolding pack_withdrawal
get_withdrawal_tx_data eth method d = case_option (set_string d.withdrawal_amount) none λ amount.
    case_option (eth.decode_hex d.signature) none λ signature.
      case_option (merkle_proof_parsing eth d.merkle_proof) none
        (pack_withdrawal eth method d amount signature)

-- `getWithdrawalTxHash`
unfoldable pub get_withdrawal_tx_hash : Client → TransactOpts → Bytes → Option String
get_withdrawal_tx_hash c opts payload =
    case_option
      (c.node.sign_tx opts.from (record {
        nonce = opts.nonce;
        gas = opts.gas_limit;
        to = c.bridge_address;
        payload = payload;
      }))
      none λ hash. some (c.ethereum.hash_text hash)

-- `IsProcessed`
unfoldable pub is_processed : Client → Deposit → Attempt Wire Bool
unfolding ask tx_hash_to_bytes32
is_processed c d =
    ask λ n. c.node.contains_hash n (tx_hash_to_bytes32 c.ethereum d.tx_hash) d.tx_nonce
