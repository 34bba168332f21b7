-- ===== src/Tests/Api.antt =====
-- The API on one deposit.
use relayer_svc.Base.{
  ltb_ℤ, ℤ, pos, negsuc, arith, ◌≡◌, refl, inl, Bool, true, false, not, str_eq, none, some, [],
  ◌>>=◌,
}
use relayer_svc.Types.{Error, case_result}
use relayer_svc.Db.{Deposit, identifier_eq}
use relayer_svc.Env.{Environment, found}
use relayer_svc.Connector.{to_transaction, get_deposit, tx_to_deposit, nil_or_not_empty}
use relayer_svc.Containers.{check_processed}
use relayer_svc.Repository.{client, supports_chain}
use relayer_svc.Postgres.{select, query, exec}
use relayer_svc.Postgres.Deposits.{get, insert, identifier_to_predicate}
use relayer_svc.Broadcaster.{
  broadcast_deposit, check_existence, load, store, now, on_world, cached, pick_child,
}
use relayer_svc.Broadcaster.Limits.{
  Shared, new_limits, on_service, with_recovery_attempts, with_recovery_timeout,
  broadcast_deposit_limited,
}
use relayer_svc.Api.{Rules, validate_identifier, CheckWithdrawalResponse, to_db_identifier}
use relayer_svc.Api.Handlers.{
  check_withdrawal, submit_withdrawal, submit_identified, submit_deposit, hand_over,
}
use relayer_svc.Api.Submission.{asked, IsAdmitted, submit_withdrawal-IsAdmitted}
use relayer_svc.Postgres.Rows.{row}
use relayer_svc.Api.Limits.{here, next, proceeds, refuses_until_submission}
use relayer_svc.Api.Status.{check_withdrawal-row}
use relayer_svc.Tests.{calm, config, first, first_id, idle, one_row, after_failure}

abbrev not_negative : ℤ → Bool
not_negative (pos n) = true
not_negative (negsuc n) = false

abbrev ozzo : Rules
ozzo = record {
  required = λ s. not (str_eq s "");
  min_zero = not_negative;
  required_lem = λ s. refl;
  min_zero-pos = λ n. refl;
  min_zero-negsuc = λ n. refl;
}

-- Before the first submission.
abbrev shared : Shared
shared = record { service = idle; limits = new_limits }

-- The core knows the deposit, and it is open.
abbrev open_core : Environment
open_core = record calm { transaction_by_id = λ n q. found (to_transaction first) }

submitted : (submit_withdrawal ozzo open_core config (some first_id) shared).0 ≡ none
unfolding submit_withdrawal validate_identifier submit_identified submit_deposit hand_over
    get_deposit broadcast_deposit check_existence load store now on_world cached ◌>>=◌
    check_processed get insert query exec select client pick_child tx_to_deposit to_transaction
    nil_or_not_empty supports_chain on_service with_recovery_attempts with_recovery_timeout
    broadcast_deposit_limited
submitted = refl

submit_withdrawal-IsAdmitted_example :
    case_result
      (get_deposit open_core (to_db_identifier first_id) shared.service.world).0
      (λ d.
        IsAdmitted open_core config d
          (asked shared)
          (submit_withdrawal ozzo open_core config (some first_id) shared).1)
      λ e. ⊥
submit_withdrawal-IsAdmitted_example =
    submit_withdrawal-IsAdmitted ozzo open_core config first_id shared submitted

first_valid : validate_identifier ozzo (some first_id) ≡ true
unfolding validate_identifier
first_valid = refl

first_found : select (identifier_to_predicate first_id) one_row.deposits ≡ some first
unfolding select identifier_to_predicate identifier_eq
first_found = refl

check_withdrawal-row_example :
    (answer : CheckWithdrawalResponse) × ((check_withdrawal ozzo calm config
        (some first_id)
        one_row).0
      ≡ inl answer)
    × (answer.deposit_identifier ≡ first_id)
    × (answer.withdrawal_status ≡ first.withdrawal_status)
    × (answer.recovery.attempts ≡ pos 3)
check_withdrawal-row_example =
    check_withdrawal-row ozzo calm config first_id one_row first 0 first_valid refl first_found refl
      (omega arith) (omega arith)

-- A failed withdrawal has a row, and no submission has come yet.
abbrev failing : Shared
failing = record { service = after_failure; limits = new_limits }

refuses_until_submission_example :
    (failing.limits ≡ new_limits)
    × ((d r : Deposit)
        → row d.identifier failing.service.world.deposits ≡ some r
        → ltb_ℤ r.recovery_attempts (pos 0) ≡ false
        → ((e : Error) × ((broadcast_deposit_limited calm config d failing).0 ≡ some e))
          × ((broadcast_deposit_limited calm config d failing).1.service.withdrawals ≡ []))
refuses_until_submission_example =
    refuses_until_submission ozzo calm config failing failing refl
      (next here (proceeds after_failure))
