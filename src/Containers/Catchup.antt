-- ===== src/Containers/Catchup.antt =====
-- internal/core/broadcaster/containers/deposit_catchup_container.go
pub mod Safety
use relayer_svc.Base.{
  case_option, Bool, true, false, Option, none, some, State, pure, ◌>>=◌, ◌>>◌, if◌then◌else◌, ◌≡◌,
}
use relayer_svc.Types.{
  Error, err_chain, err_db, err_core, err_withdrawal_processed, err_already_submitted,
  WithdrawalStatus, Result, ok, err, case_result, unspecified, pending, processing,
  submitting_to_core, processed, failed, already_withdrawn,
}
use relayer_svc.Db.{Deposit}
use relayer_svc.Env.{Environment, World}
use relayer_svc.Postgres.Deposits.{set_status, update_status, update_withdrawal_details}
use relayer_svc.Connector.{get_deposit}
use relayer_svc.Containers.{
  Outcome, check_processed, execute_withdrawal, or_default_hash, unless_panic,
}
use relayer_svc.Containers.Broadcast.{reject, report_failure, report_unstored}

-- The chain has the withdrawal already: the row is closed, and the worker is told by an error.
unfoldable pub skip_processed : Environment → Deposit → State World Outcome
skip_processed env d = do
  let d' = or_default_hash (set_status processed d)
  update_status env d.identifier processed
  update_withdrawal_details env d'
  pure (some d', some err_withdrawal_processed)

-- Unlike the broadcast container's, this last update returns the deposit beside its error.
unfoldable pub submit : Environment → Deposit → State World Outcome
submit env d = do
  e ← update_status env d.identifier submitting_to_core
  pure (some (set_status submitting_to_core d), e)

unfoldable pub store_details : Environment → Deposit → State World Outcome
store_details env d = do
  e ← update_withdrawal_details env d
  case_option e (submit env d) (report_unstored env d)

unfoldable pub withdraw_again : Environment → Deposit → State World Outcome
unfolding unless_panic
withdraw_again env d = do
  (d', e) ← execute_withdrawal env d
  case_option e (store_details env d') (unless_panic (report_failure env d'))

-- `IsProcessed`, on the row that was just marked.
unfoldable pub check_and_withdraw : Environment → Deposit → State World Outcome
check_and_withdraw env d = do
  answer ← check_processed env d
  case_option answer (reject env d)
      λ done. if done then skip_processed env d else withdraw_again env d

-- `ProcessWithdraw`
unfoldable pub process_withdraw : Environment → Deposit → State World Outcome
process_withdraw env d = do
  e ← update_status env d.identifier processing
  case_option e (check_and_withdraw env (set_status processing d)) (λ e'. pure (none, some e'))

unfoldable pub is_some {ℓ} : {A : Type ℓ} → Option A → Bool
is_some none = false
is_some (some a) = true

-- `isSubmitted`: the core has a withdrawal hash for the deposit.
unfoldable pub is_submitted : Environment → Deposit → State World (Result Bool)
unfolding is_some
is_submitted env d = do
  found ← get_deposit env d.identifier
  pure (case_result found (λ deposit. ok (is_some deposit.withdrawal_tx_hash)) err)

unfoldable pub close_submitted : Environment → Deposit → State World Outcome
close_submitted env d = do
  e ← update_status env d.identifier processed
  pure (none, case_option e (some err_already_submitted) some)

unfoldable pub resume_submission : Environment → Deposit → State World Outcome
resume_submission env d = do
  answer ← is_submitted env d
  case_result answer (λ submitted. if submitted then close_submitted env d else pure (some d, none))
      λ e. pure (none, some e)

-- `Run` switches on the status that the deposit had when it was read from the table.
unfoldable pub resume : WithdrawalStatus → Environment → Deposit → State World Outcome
resume processing env d = process_withdraw env d
resume pending env d = process_withdraw env d
resume submitting_to_core env d = resume_submission env d
resume _ env d = pure (some d, none)

unfoldable pub run : Environment → Deposit → State World Outcome
unfolding resume
run env d = resume d.withdrawal_status env d
