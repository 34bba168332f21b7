-- ===== src/Connector/RoundTrip.antt =====
-- The service's deposit and the core's transaction: what survives the conversions both ways.
use relayer_svc.Base.{
  ◌^◌, ◌<◌, ◌≡◌, pos, String, eq_iff, arith, Option, none, some, refl, str_eq, if◌then◌else◌,
  IsInt64, to_int64-to_uint64, to_uint64-to_int64,
}
use relayer_svc.Types.{unspecified}
use relayer_svc.Db.{Deposit, zero_time}
use relayer_svc.Env.{Transaction}
use relayer_svc.Connector.{nil_or_not_empty, empty_or_string, tx_to_deposit, to_transaction}

-- A hash comes back, unless it is empty.
abbrev kept_hash : Option String → Option String
kept_hash none = none
kept_hash (some hash) = if str_eq hash "" then none else some hash

nil_or_not_empty-empty_or_string :
    (o : Option String) → nil_or_not_empty (empty_or_string o) ≡ kept_hash o
unfolding nil_or_not_empty empty_or_string
nil_or_not_empty-empty_or_string none = refl
nil_or_not_empty-empty_or_string (some hash) = refl

-- The deposit as the core remembers it: without the service's own bookkeeping, and with an empty
-- withdrawal hash read as no hash.
unfoldable pub as_reported : Deposit → Deposit
as_reported d = record d {
  withdrawal_status = unspecified;
  withdrawal_chain_block = pos 0;
  withdrawal_core_block = pos 0;
  withdrawal_tx_hash = kept_hash d.withdrawal_tx_hash;
  merkle_proof = "";
  operator = "";
  recovery_attempts = pos 0;
  recovery_timestamp = zero_time;
}

-- A deposit that is reported to the core and read back is the deposit reported, for a nonce and a
-- block within int64 and a referral id within uint16: its withdrawal hash is there again unless it is
-- empty, and the service's own bookkeeping is not.
pub tx_to_deposit-to_transaction :
    (d : Deposit)
    → IsInt64 d.tx_nonce
    → IsInt64 d.deposit_block
    → d.referral_id < 2 ^ 16
    → tx_to_deposit (to_transaction d) ≡ as_reported d
unfolding tx_to_deposit to_transaction as_reported
tx_to_deposit-to_transaction d n b r = ground (
  arith,
  to_int64-to_uint64 d.tx_nonce n,
  to_int64-to_uint64 d.deposit_block b,
  nil_or_not_empty-empty_or_string d.withdrawal_tx_hash,
)

empty_or_string-nil_or_not_empty : (s : String) → empty_or_string (nil_or_not_empty s) ≡ s
unfolding empty_or_string nil_or_not_empty
empty_or_string-nil_or_not_empty s = ground (arith, eq_iff s "")

-- A transaction of the core that is read and reported again is the same transaction, if its index and
-- its block are below 2^64 and its referral id is below 2^16.
pub to_transaction-tx_to_deposit :
    (tx : Transaction)
    → tx.deposit_tx_index < 2 ^ 64
    → tx.deposit_block < 2 ^ 64
    → tx.referral_id < 2 ^ 16
    → to_transaction (tx_to_deposit tx) ≡ tx
unfolding tx_to_deposit to_transaction
to_transaction-tx_to_deposit tx i b r = ground (
  arith,
  to_uint64-to_int64 tx.deposit_tx_index i,
  to_uint64-to_int64 tx.deposit_block b,
  empty_or_string-nil_or_not_empty tx.withdrawal_tx_hash,
)
