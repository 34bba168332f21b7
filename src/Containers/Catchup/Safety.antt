-- ===== src/Containers/Catchup/Safety.antt =====
-- What a run of the catch-up container touches, and when it calls the chain again.
use relayer_svc.Base.{
  ◌+◌, ◌≡◌, ◌≢◌, refl, ◌∙◌, Bool, true, false, not, ◌&&◌, ◌∷◌, pure, ◌>>=◌, arith, if◌then◌else◌,
  case_option,
}
use relayer_svc.Types.{
  WithdrawalStatus, unspecified, pending, processing, submitting_to_core, processed, failed,
  already_withdrawn,
}
use relayer_svc.Db.{DepositIdentifier, Deposit}
use relayer_svc.Env.{Environment, World}
use relayer_svc.Postgres.{exec}
use relayer_svc.Postgres.Deposits.{set_status, update, update_status, update_withdrawal_details}
use relayer_svc.Postgres.Rows.{row, identifier_eq_iff, set_status-KeepsKey}
use relayer_svc.Connector.{get_deposit}
use relayer_svc.Containers.{check_processed, execute_withdrawal, or_default_hash}
use relayer_svc.Containers.Broadcast
use relayer_svc.Containers.Broadcast.Isolation.{
  reject-Frames, report_failure-Frames, report_unstored-Frames,
}
use relayer_svc.Containers.Frame.{
  Frames, Frames-bind, Frames-result, Frames-option, Frames-pure, Frames-if, update_status-Frames,
  check_processed-Frames, get_deposit-Frames, execute_withdrawal-Frames, unless_panic-Frames,
  execute_withdrawal-identifier, or_default_hash-KeepsKey, frame_rules,
}
use relayer_svc.Containers.Catchup.{
  skip_processed, submit, store_details, withdraw_again, check_and_withdraw, process_withdraw,
  is_submitted, close_submitted, resume_submission, resume, run,
}

-- The deposit was read as PENDING or PROCESSING: its withdrawal may not have been sent.
abbrev pub is_unsent : WithdrawalStatus → Bool
is_unsent pending = true
is_unsent processing = true
is_unsent _ = false

-- The row could be marked, and then the chain says that the deposit is open.
abbrev pub is_reopened : Environment → Deposit → World → Bool
is_reopened env d w =
    is_unsent d.withdrawal_status
    && not (env.db_fault w.calls)
    && case_option (env.is_processed (w.calls + 1) (set_status processing d)) false not

sent-process_withdraw :
    (env : Environment) (d : Deposit) (w : World)
    → (process_withdraw env d w).1.sent ≡ (
        if not (env.db_fault w.calls)
          && case_option (env.is_processed (w.calls + 1) (set_status processing d)) false not
        then set_status processing d ∷ w.sent
        else w.sent)
unfolding process_withdraw check_and_withdraw withdraw_again store_details submit skip_processed
    Broadcast.reject Broadcast.report_failure Broadcast.report_unstored ◌>>=◌ exec update
    update_status update_withdrawal_details check_processed execute_withdrawal
sent-process_withdraw env d w = ground arith

sent-resume_submission :
    (env : Environment) (d : Deposit) (w : World) → (resume_submission env d w).1.sent ≡ w.sent
unfolding resume_submission close_submitted is_submitted get_deposit ◌>>=◌ exec update update_status
sent-resume_submission env d w = ground arith

resume-sent :
    (env : Environment) (d : Deposit) (w : World) (status : WithdrawalStatus)
    → (resume status env d w).1.sent ≡ (
        if is_unsent status
          && not (env.db_fault w.calls)
          && case_option (env.is_processed (w.calls + 1) (set_status processing d)) false not
        then set_status processing d ∷ w.sent
        else w.sent)
unfolding resume pure
resume-sent env d w processing = sent-process_withdraw env d w
resume-sent env d w pending = sent-process_withdraw env d w
resume-sent env d w submitting_to_core = sent-resume_submission env d w
resume-sent env d w unspecified = refl
resume-sent env d w processed = refl
resume-sent env d w failed = refl
resume-sent env d w already_withdrawn = refl

-- Catching a deposit up calls the chain's Withdraw at most once, and exactly when the deposit was
-- read as PENDING or PROCESSING, its row was marked PROCESSING, and the chain said after that that
-- it was not withdrawn.
pub sent-catchup :
    (env : Environment) (d : Deposit) (w : World)
    → (run env d w).1.sent
      ≡ (if is_reopened env d w then set_status processing d ∷ w.sent else w.sent)
unfolding run
sent-catchup env d w = resume-sent env d w d.withdrawal_status

module _ (env : Environment) {id : DepositIdentifier} (d : Deposit) (own : d.identifier ≡ id) where
  skip_processed-Frames : Frames id (skip_processed env d)
  unfolding skip_processed
  skip_processed-Frames = search (frame_rules, done_key)
    where
      done_key : (or_default_hash (set_status processed d)).identifier ≡ id
      done_key = or_default_hash-KeepsKey _ ∙ set_status-KeepsKey processed d ∙ own

  submit-Frames : Frames id (submit env d)
  unfolding submit
  submit-Frames = search frame_rules

  store_details-Frames : Frames id (store_details env d)
  unfolding store_details
  store_details-Frames = search (frame_rules, submit-Frames, report_unstored-Frames)

module _ (env : Environment) {id : DepositIdentifier} (d : Deposit) (own : d.identifier ≡ id) where
  withdraw_again-Frames : Frames id (withdraw_again env d)
  unfolding withdraw_again
  withdraw_again-Frames = Frames-bind _ _ (execute_withdrawal-Frames env d) λ w.
      let kept = execute_withdrawal-identifier env d w ∙ own in
      Frames-option _ _ _ (store_details-Frames env _ kept)
        (unless_panic-Frames _ (report_failure-Frames env _ kept))

  check_and_withdraw-Frames : Frames id (check_and_withdraw env d)
  unfolding check_and_withdraw
  check_and_withdraw-Frames = Frames-bind _ _ (check_processed-Frames env d) λ w.
      Frames-option _ _ _ (reject-Frames env d own)
        λ done. Frames-if done _ _ (skip_processed-Frames env d own) withdraw_again-Frames

module _ (env : Environment) (d : Deposit) where
  process_withdraw-Frames : Frames d.identifier (process_withdraw env d)
  unfolding process_withdraw
  process_withdraw-Frames = Frames-bind _ _ (update_status-Frames env _ processing refl) λ w.
      Frames-option _ _ _ (check_and_withdraw-Frames env _ (set_status-KeepsKey processing d))
        (λ e. Frames-pure _)

  close_submitted-Frames : Frames d.identifier (close_submitted env d)
  unfolding close_submitted
  close_submitted-Frames =
      Frames-bind _ _ (update_status-Frames env _ processed refl) λ w. Frames-pure _

  resume_submission-Frames : Frames d.identifier (resume_submission env d)
  unfolding resume_submission is_submitted
  resume_submission-Frames =
      Frames-bind _ _ (Frames-bind _ _ (get_deposit-Frames env d.identifier) (λ w. Frames-pure _))
        λ w.
          Frames-result _ _ _
            (λ submitted. Frames-if submitted _ _ close_submitted-Frames (Frames-pure _))
            (λ e. Frames-pure _)

  resume-Frames : (status : WithdrawalStatus) → Frames d.identifier (resume status env d)
  unfolding resume
  resume-Frames processing = process_withdraw-Frames
  resume-Frames pending = process_withdraw-Frames
  resume-Frames submitting_to_core = resume_submission-Frames
  resume-Frames _ = Frames-pure _

-- Catching a deposit up leaves every other deposit's row as it was, whatever the database, the chain
-- and the core answer.
pub row-catchup :
    (env : Environment) (d : Deposit) (w : World) (j : DepositIdentifier)
    → d.identifier ≢ j
    → row j (run env d w).1.deposits ≡ row j w.deposits
unfolding run
row-catchup env d w j other =
    ((resume-Frames env d d.withdrawal_status).at w).others j
      (ground (arith, identifier_eq_iff d.identifier j))
