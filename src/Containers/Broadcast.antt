-- ===== src/Containers/Broadcast.antt =====
-- internal/core/broadcaster/containers/deposit_broadcast_container.go
pub mod Isolation
pub mod Outcomes
use relayer_svc.Base.{
  case_option, Bool, true, false, Option, none, some, State, pure, ◌>>=◌, ◌>>◌, if◌then◌else◌,
}
use relayer_svc.Types.{
  Error, err_chain, err_db, processing, submitting_to_core, failed, already_withdrawn,
}
use relayer_svc.Db.{Deposit}
use relayer_svc.Env.{Environment, World}
use relayer_svc.Postgres.Deposits.{set_status, update_status, update_withdrawal_details}
use relayer_svc.Containers.{
  Outcome, default_withdrawal_hash, check_processed, execute_withdrawal, or_default_hash,
  unless_panic,
}

-- `IsProcessed` failed.
unfoldable pub reject : Environment → Deposit → State World Outcome
reject env d = do
  update_status env d.identifier failed
  pure (some (set_status failed d), some err_chain)

-- The chain has the withdrawal already: the null hash goes to the core.
unfoldable pub report_withdrawn : Environment → Deposit → State World Outcome
report_withdrawn env d = do
  let d' = record (set_status already_withdrawn d) {
    withdrawal_tx_hash = some default_withdrawal_hash;
  }
  update_status env d.identifier already_withdrawn
  update_withdrawal_details env d'
  pure (some d', none)

-- `executeWithdrawal` failed.
unfoldable pub report_failure : Environment → Deposit → Error → State World Outcome
report_failure env d e = do
  let d' = or_default_hash (set_status failed d)
  update_status env d.identifier failed
  update_withdrawal_details env d'
  pure (some d', some e)

-- The details could not be stored.
unfoldable pub report_unstored : Environment → Deposit → Error → State World Outcome
report_unstored env d e = do
  update_status env d.identifier failed
  pure (some (set_status failed d), some e)

-- The last status update; where it fails `Run` returns a nil deposit.
unfoldable pub submit : Environment → Deposit → State World Outcome
submit env d = do
  e ← update_status env d.identifier submitting_to_core
  pure (case_option e (some (set_status submitting_to_core d), none) (λ e'. (none, some e')))

unfoldable pub store_details : Environment → Deposit → State World Outcome
store_details env d = do
  e ← update_withdrawal_details env d
  case_option e (submit env d) (report_unstored env d)

unfoldable pub process : Environment → Deposit → State World Outcome
unfolding unless_panic
process env d = do
  (d', e) ← execute_withdrawal env d
  case_option e (store_details env d') (unless_panic (report_failure env d'))

-- Not withdrawn yet: the row is marked, and only then is the chain called.
unfoldable pub start : Environment → Deposit → State World Outcome
start env d = do
  e ← update_status env d.identifier processing
  case_option e (process env (set_status processing d)) (λ e'. pure (none, some e'))

unfoldable pub run : Environment → Deposit → State World Outcome
run env d = do
  answer ← check_processed env d
  case_option answer (reject env d)
      λ processed. if processed then report_withdrawn env d else start env d
