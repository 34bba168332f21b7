-- ===== src/Containers/Broadcast/Isolation.antt =====
-- Which rows a run of the broadcast container touches.
use relayer_svc.Base.{◌≢◌, ◌≡◌, refl, ◌∙◌, arith}
use relayer_svc.Types.{Error, processing, failed, already_withdrawn}
use relayer_svc.Db.{DepositIdentifier, Deposit}
use relayer_svc.Env.{Environment, World}
use relayer_svc.Postgres.Deposits.{set_status}
use relayer_svc.Postgres.Rows.{row, identifier_eq_iff, set_status-KeepsKey}
use relayer_svc.Containers.{or_default_hash}
use relayer_svc.Containers.Frame.{
  Frames, Frames-bind, Frames-option, Frames-pure, Frames-if, update_status-Frames,
  check_processed-Frames, Frames-bind, Frames-option, Frames-pure, Frames-if,
  execute_withdrawal-Frames, unless_panic-Frames, execute_withdrawal-identifier,
  or_default_hash-KeepsKey, frame_rules,
}
use relayer_svc.Containers.Broadcast.{
  reject, report_withdrawn, report_failure, report_unstored, submit, store_details, process, start,
  run,
}

module _ (env : Environment) {id : DepositIdentifier} (d : Deposit) (own : d.identifier ≡ id) where
  pub reject-Frames : Frames id (reject env d)
  unfolding reject
  reject-Frames = search frame_rules

  pub report_failure-Frames : (e : Error) → Frames id (report_failure env d e)
  unfolding report_failure
  report_failure-Frames e = search (frame_rules, failure_key)
    where
      failure_key : (or_default_hash (set_status failed d)).identifier ≡ id
      failure_key = or_default_hash-KeepsKey _ ∙ set_status-KeepsKey failed d ∙ own

  pub report_unstored-Frames : (e : Error) → Frames id (report_unstored env d e)
  unfolding report_unstored
  report_unstored-Frames e = search frame_rules

  pub report_withdrawn-Frames : Frames id (report_withdrawn env d)
  unfolding report_withdrawn
  report_withdrawn-Frames = search (frame_rules, set_status-KeepsKey already_withdrawn d ∙ own)

  submit-Frames : Frames id (submit env d)
  unfolding submit
  submit-Frames = search frame_rules

  store_details-Frames : Frames id (store_details env d)
  unfolding store_details
  store_details-Frames = search (frame_rules, submit-Frames, report_unstored-Frames)

module _ (env : Environment) {id : DepositIdentifier} (d : Deposit) (own : d.identifier ≡ id) where
  process-Frames : Frames id (process env d)
  unfolding process
  process-Frames = Frames-bind _ _ (execute_withdrawal-Frames env d) λ w.
      let kept = execute_withdrawal-identifier env d w ∙ own in
      Frames-option _ _ _ (store_details-Frames env _ kept)
        (unless_panic-Frames _ (report_failure-Frames env _ kept))

module _ (env : Environment) {id : DepositIdentifier} (d : Deposit) (own : d.identifier ≡ id) where
  start-Frames : Frames id (start env d)
  unfolding start
  start-Frames = Frames-bind _ _ (update_status-Frames env _ processing own) λ w.
      Frames-option _ _ _ (process-Frames env _ (set_status-KeepsKey processing d ∙ own))
        (λ e. Frames-pure _)

pub run-Frames : (env : Environment) (d : Deposit) → Frames d.identifier (run env d)
unfolding run
run-Frames env d = Frames-bind _ _ (check_processed-Frames env d) λ w.
    Frames-option _ _ _ (reject-Frames env d refl) λ processed.
      Frames-if processed _ _ (report_withdrawn-Frames env d refl) (start-Frames env d refl)

-- A run for a deposit leaves every other deposit's row as it was, whatever the database, the chain
-- and the core answer.
pub row-run :
    (env : Environment) (d : Deposit) (w : World) (j : DepositIdentifier)
    → d.identifier ≢ j
    → row j (run env d w).1.deposits ≡ row j w.deposits
row-run env d w j other =
    ((run-Frames env d).at w).others j (ground (arith, identifier_eq_iff d.identifier j))
