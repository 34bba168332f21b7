-- ===== src/Types.antt =====
-- internal/types: the statuses of withdrawals and epochs, and the sentinel errors.
-- An `error` is modelled by the sentinel at its root: `errors.Wrap` keeps it, and the callers look
-- at nothing else (`errors.Is`). The roots past the first five stand for errors that come from
-- outside: the database, a chain, the core node; `err_panic` is a
-- run-time panic, which ends the process.
use Prim.Native.Nat.{ℕ}
use mathlib.Core.Path.{◌≡◌, refl}
use mathlib.Core.Logic.{◌⊎◌, inl, inr}

pub data WithdrawalStatus : Type 0 where
  unspecified pending processing submitting_to_core processed failed already_withdrawn :
      WithdrawalStatus

-- The number of the enum.
unfoldable pub status_number : WithdrawalStatus → ℕ
status_number unspecified = 0
status_number pending = 1
status_number processing = 2
status_number submitting_to_core = 3
status_number processed = 4
status_number failed = 5
status_number already_withdrawn = 6

pub data EpochStatus : Type 0 where
  epoch_failed epoch_processed epoch_pending : EpochStatus

pub data Error : Type 0 where
  err_failed_to_broadcast err_already_exists err_withdrawal_processed err_already_submitted
        err_chain_not_supported err_skipped err_skipped_finalization :
      Error
  err_db err_chain err_core err_not_found err_parse err_stopped err_panic : Error

-- A call's value, or its error.
pub data Result {ℓ} (A : Type ℓ) : Type ℓ where
  ok : A → Result A
  err : Error → Result A

abbrev pub case_result {ℓ κ} : {A : Type ℓ} {B : Type κ} → Result A → (A → B) → (Error → B) → B
case_result (ok a) f g = f a
case_result (err e) f g = g e

pub Result-cases {ℓ} :
    {A : Type ℓ} (r : Result A) → ((e : Error) × (r ≡ err e)) ⊎ ((a : A) × (r ≡ ok a))
Result-cases (ok a) = inr (a, refl)
Result-cases (err e) = inl (e, refl)
