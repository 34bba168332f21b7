-- ===== src/Api.antt =====
-- internal/api/common/common.go: the validation of identifiers, and what the API answers. The fields of
-- the responses are those of proto/deposit/deposit.proto and proto/api/api.proto.
pub mod Handlers
pub mod Submission
pub mod Limits
pub mod Status
use relayer_svc.Base.{
  ℕ, ℤ, ◌+ℤ◌, ◌-◌, ◌%◌, ◌/◌, ◌^◌, to_uint64, ltb, ◌≡◌, String, str_eq, Bool, true, false, not, ◌&&◌,
  Option, none, some, List, map, if◌then◌else◌, pos, negsuc,
}
use relayer_svc.Types.{WithdrawalStatus}
use relayer_svc.Db.{DepositIdentifier, Deposit}

-- The rules of ozzo-validation that the identifier is checked with, and what it says of them:
-- `Required` refuses the empty string, and `Min(0)` a negative number.
pub record Rules : Type 0 where
  pub required : String → Bool
  pub min_zero : ℤ → Bool
  pub required_lem : (s : String) → required s ≡ not (str_eq s "")
  pub min_zero-pos : (n : ℕ) → min_zero (pos n) ≡ true
  pub min_zero-negsuc : (n : ℕ) → min_zero (negsuc n) ≡ false

-- `ValidateIdentifier`, of a pointer: true where it returns no error.
unfoldable pub validate_identifier : Rules → Option DepositIdentifier → Bool
validate_identifier rules none = false
validate_identifier rules (some id) =
    rules.required id.tx_hash && rules.required id.chain_id && rules.min_zero id.tx_nonce

pub record TransferData : Type 0 where
  pub sender : Option String
  pub receiver : String
  pub deposit_amount : String
  pub withdrawal_amount : String
  pub commission_amount : String
  pub deposit_asset : String
  pub withdrawal_asset : String
  pub is_wrapped_asset : Bool
  pub deposit_block : ℤ
  pub signature : Option String
  pub merkle_proof : String
  pub tx_data : String

pub record WithdrawalIdentifier : Type 0 where
  pub tx_hash : Option String
  pub chain_id : String
  pub withdrawal_chain_block : Option ℤ
  pub withdrawal_core_block : Option ℤ
  pub operator : String

pub record Recovery : Type 0 where
  pub attempts : ℤ
  pub timestamp : ℤ

pub record CheckWithdrawalResponse : Type 0 where
  pub deposit_identifier : DepositIdentifier
  pub withdrawal_status : WithdrawalStatus
  pub transfer_data : TransferData
  pub withdrawal_identifier : WithdrawalIdentifier
  pub recovery : Recovery

-- int32(x) of an int64: its lower 32 bits, with a sign.
unfoldable pub to_int32 : ℤ → ℤ
to_int32 a =
    let low = to_uint64 a % 2 ^ 32 in
    if ltb low (2 ^ 31) then pos low else negsuc (2 ^ 32 - 1 - low)

-- `Unix()` of a time in nanoseconds, rounded down.
unfoldable pub unix : ℤ → ℤ
unix (pos n) = pos (n / 10 ^ 9)
unix (negsuc n) = negsuc (n / 10 ^ 9)

-- `ToStatusResponse`
unfoldable pub to_status_response : Deposit → CheckWithdrawalResponse
unfolding to_int32 unix
to_status_response d = record {
  deposit_identifier = record { tx_hash = d.tx_hash; tx_nonce = d.tx_nonce; chain_id = d.chain_id };
  withdrawal_status = d.withdrawal_status;
  transfer_data = record {
    sender = some d.depositor;
    receiver = d.receiver;
    deposit_amount = d.deposit_amount;
    withdrawal_amount = d.withdrawal_amount;
    commission_amount = d.commission_amount;
    deposit_asset = d.deposit_token;
    withdrawal_asset = d.withdrawal_token;
    is_wrapped_asset = d.is_wrapped_token;
    deposit_block = d.deposit_block;
    signature = some d.signature;
    merkle_proof = d.merkle_proof;
    tx_data = d.tx_data;
  };
  withdrawal_identifier = record {
    tx_hash = d.withdrawal_tx_hash;
    chain_id = d.withdrawal_chain_id;
    withdrawal_chain_block = some d.withdrawal_chain_block;
    withdrawal_core_block = some d.withdrawal_core_block;
    operator = d.operator;
  };
  recovery = record {
    attempts = to_int32 d.recovery_attempts;
    timestamp = unix d.recovery_timestamp;
  };
}

-- `ToWithdrawalByStatusResponse`
unfoldable pub to_withdrawal_by_status_response : List Deposit → List CheckWithdrawalResponse
unfolding to_status_response
to_withdrawal_by_status_response = map to_status_response

-- `ToDbIdentifier`
unfoldable pub to_db_identifier : DepositIdentifier → DepositIdentifier
to_db_identifier id = record {
  tx_hash = id.tx_hash;
  tx_nonce = id.tx_nonce;
  chain_id = id.chain_id;
}
