-- ===== src/Observer/Attributes.antt =====
-- internal/core/observer/utils.go: the attributes of the core's events.
pub mod Epochs
use relayer_svc.Base.{
  ℕ, ℤ, String, str_eq, ◌||◌, Bool, Option, none, some, List, [], ◌∷◌, if◌then◌else◌, case_option,
}
use relayer_svc.Types.{err_parse, Result, ok, err, case_result}
use relayer_svc.Db.{Deposit, Epoch, empty_deposit, empty_epoch}
use relayer_svc.Connector.{nil_or_not_empty}
use relayer_svc.Observer.Numbers.{parse_int, parse_uint, parse_bool}

pub record Attribute : Type 0 where
  pub key : String
  pub value : String

-- The `AttributeKey…` constants of the core's bridge module.
pub record DepositKeys : Type 0 where
  pub deposit_tx_hash : String
  pub deposit_nonce : String
  pub deposit_chain_id : String
  pub deposit_amount : String
  pub deposit_token : String
  pub deposit_block : String
  pub withdrawal_amount : String
  pub depositor : String
  pub receiver : String
  pub withdrawal_chain_id : String
  pub withdrawal_tx_hash : String
  pub withdrawal_token : String
  pub signature : String
  pub is_wrapped : String
  pub commission_amount : String
  pub merkle_proof : String
  pub epoch_id : String

-- A parsed value is written, or the attribute is an error.
unfoldable pub parsed {ℓ} : {A : Type 0} {B : Type ℓ} → Option A → (A → B) → Result B
parsed none f = err err_parse
parsed (some a) f = ok (f a)

-- One round of the loop of `parseSubmittedDeposit`.
unfoldable pub read_deposit : DepositKeys → Attribute → Deposit → Result Deposit
unfolding parsed
read_deposit keys a d =
    if str_eq a.key keys.deposit_tx_hash
    then ok (record d { identifier = record (d.identifier) { tx_hash = a.value } })
    else if str_eq a.key keys.deposit_nonce
    then parsed (parse_int a.value)
        (λ n. record d { identifier = record (d.identifier) { tx_nonce = n } })
    else if str_eq a.key keys.deposit_chain_id
    then ok (record d { identifier = record (d.identifier) { chain_id = a.value } })
    else if str_eq a.key keys.deposit_amount
    then ok (record d { deposit_amount = a.value })
    else if str_eq a.key keys.deposit_token
    then ok (record d { deposit_token = a.value })
    else if str_eq a.key keys.deposit_block
    then parsed (parse_int a.value) (λ b. record d { deposit_block = b })
    else if str_eq a.key keys.withdrawal_amount
    then ok (record d { withdrawal_amount = a.value })
    else if str_eq a.key keys.depositor
    then ok (record d { depositor = a.value })
    else if str_eq a.key keys.receiver
    then ok (record d { receiver = a.value })
    else if str_eq a.key keys.withdrawal_chain_id
    then ok (record d { withdrawal_chain_id = a.value })
    else if str_eq a.key keys.withdrawal_tx_hash
    then ok (if str_eq a.value "" then d else record d { withdrawal_tx_hash = some (a.value) })
    else if str_eq a.key keys.withdrawal_token
    then ok (record d { withdrawal_token = a.value })
    else if str_eq a.key keys.signature
    then ok (if str_eq a.value "" then d else record d { signature = a.value })
    else if str_eq a.key keys.is_wrapped
    then parsed (parse_bool a.value) (λ b. record d { is_wrapped_token = b })
    else if str_eq a.key keys.commission_amount
    then ok (record d { commission_amount = a.value })
    else if str_eq a.key keys.merkle_proof
    then ok (record d { merkle_proof = a.value })
    else if str_eq a.key keys.epoch_id
    then ok d
    else err err_parse

-- The loops over the attributes stop at the first error.
unfoldable pub read_all : {R : Type 0} → (Attribute → R → Result R) → List Attribute → R → Result R
read_all read [] r = ok r
read_all read (a ∷ rest) r = case_result (read a r) (read_all read rest) err

-- `parseSubmittedDeposit`
unfoldable pub parse_submitted_deposit : DepositKeys → List Attribute → Result Deposit
unfolding read_deposit read_all
parse_submitted_deposit keys attributes = read_all (read_deposit keys) attributes empty_deposit

-- One round of the loop of `parseUpdatedEpochs`; the keys are those of internal/db/signatures.go.
unfoldable pub read_epoch : Attribute → Epoch → Result Epoch
unfolding parsed
read_epoch a e =
    if str_eq a.key "epoch_id"
    then parsed (parse_uint 32 a.value) (λ n. record e { id = n })
    else if str_eq a.key "chain_id"
    then ok (record e { chain_id = a.value })
    else if str_eq a.key "epoch_signature"
    then ok (record e { signature = a.value })
    else if str_eq a.key "epoch_signer"
    then ok (record e { signer = a.value })
    else if str_eq a.key "epoch_start_time"
    then parsed (parse_uint 64 a.value) (λ n. record e { start_time = n })
    else if str_eq a.key "epoch_end_time"
    then parsed (parse_uint 64 a.value) (λ n. record e { end_time = n })
    else if str_eq a.key "epoch_nonce"
    then ok (record e { nonce = a.value })
    else if str_eq a.key "epoch_signature_mode"
    then parsed (parse_bool a.value) (λ b. record e { signature_mode = b })
    else ok e

-- `parseUpdatedEpochs`
unfoldable pub parse_updated_epochs : List Attribute → Result Epoch
unfolding read_epoch read_all
parse_updated_epochs attributes = read_all read_epoch attributes empty_epoch
