-- ===== src/Db.antt =====
-- internal/db: the records that the service stores.
-- `time.Time` is the number of nanoseconds since the Unix epoch, so `t.Unix() < 0` is `t < 0`.
pub mod Text
pub mod Keys
use relayer_svc.Base.{
  ℕ, ◌-◌, ◌*◌, ℤ, pos, negsuc, String, Bool, false, Option, none, ◌&&◌, str_eq, eqb_ℤ,
}
use relayer_svc.Types.{WithdrawalStatus, unspecified, EpochStatus, epoch_failed}

pub record DepositIdentifier : Type 0 where
  pub tx_hash : String
  pub tx_nonce : ℤ
  pub chain_id : String

pub record Deposit : Type 0 where
  pub identifier : DepositIdentifier
  pub open identifier use *
  pub depositor : String
  pub deposit_amount : String
  pub deposit_token : String
  pub receiver : String
  pub deposit_block : ℤ
  pub commission_amount : String
  pub referral_id : ℕ
  pub is_wrapped_token : Bool
  pub withdrawal_status : WithdrawalStatus
  pub withdrawal_token : String
  pub withdrawal_chain_block : ℤ
  pub withdrawal_core_block : ℤ
  pub withdrawal_tx_hash : Option String
  pub withdrawal_chain_id : String
  pub withdrawal_amount : String
  pub merkle_proof : String
  pub tx_data : String
  pub signature : String
  pub operator : String
  pub recovery_attempts : ℤ
  pub recovery_timestamp : ℤ

-- `time.Time{}`: the first of January of the year 1.
abbrev pub zero_time : ℤ
zero_time = negsuc (62135596800 * 1000000000 - 1)

-- `db.Deposit{}`.
abbrev pub empty_deposit : Deposit
empty_deposit = record {
  identifier = record { tx_hash = ""; tx_nonce = pos 0; chain_id = "" };
  depositor = "";
  deposit_amount = "";
  deposit_token = "";
  receiver = "";
  deposit_block = pos 0;
  commission_amount = "";
  referral_id = 0;
  is_wrapped_token = false;
  withdrawal_status = unspecified;
  withdrawal_token = "";
  withdrawal_chain_block = pos 0;
  withdrawal_core_block = pos 0;
  withdrawal_tx_hash = none;
  withdrawal_chain_id = "";
  withdrawal_amount = "";
  merkle_proof = "";
  tx_data = "";
  signature = "";
  operator = "";
  recovery_attempts = pos 0;
  recovery_timestamp = zero_time;
}

pub record Epoch : Type 0 where
  pub id : ℕ
  pub chain_id : String
  pub signature : String
  pub signer : String
  pub start_time : ℕ
  pub end_time : ℕ
  pub nonce : String
  pub signature_mode : Bool
  pub status : EpochStatus

-- `db.Epoch{}`; status 0 is EPOCH_STATUS_FAILED.
abbrev pub empty_epoch : Epoch
empty_epoch = record {
  id = 0;
  chain_id = "";
  signature = "";
  signer = "";
  start_time = 0;
  end_time = 0;
  nonce = "";
  signature_mode = false;
  status = epoch_failed;
}

pub record SignatureIdentifier : Type 0 where
  pub id : ℕ
  pub chain_id : String
  pub nonce : String

abbrev pub epoch_identifier : Epoch → SignatureIdentifier
epoch_identifier e = record { id = e.id; chain_id = e.chain_id; nonce = e.nonce }

-- The three columns of the primary key agree.
unfoldable pub identifier_eq : DepositIdentifier → DepositIdentifier → Bool
identifier_eq a b =
    str_eq a.tx_hash b.tx_hash && eqb_ℤ a.tx_nonce b.tx_nonce && str_eq a.chain_id b.chain_id
