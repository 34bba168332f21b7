-- ===== src/Tests/Broadcaster.antt =====
-- The broadcaster at one or two deposits.
use mathlib.Core.Option
use relayer_svc.Base.{◌≡◌, refl, length, false, none, some, ◌∷◌, [], pos, ◌+ℤ◌, to_int64, ◌>>=◌}
use relayer_svc.Types.{
  err_already_exists, err_panic, submitting_to_core, pending, processing, status_number,
}
use relayer_svc.Db.{Deposit, identifier_eq}
use relayer_svc.Db.Text.{id_string, text_eq}
use relayer_svc.Db.Keys.{has_slash, id_string_injective}
use relayer_svc.Connector.{to_transaction, nil_or_not_empty}
use relayer_svc.Containers.Catchup.{is_some}
use relayer_svc.Postgres.{exec, query, select, select_all}
use relayer_svc.Postgres.Rows.{row}
use relayer_svc.Postgres.Deposits.{
  get, insert, inserted_row, update, update_recovery_data, identifier_to_predicate, has_status,
  set_status,
}
use relayer_svc.Containers.{check_processed}
use relayer_svc.Repository.{client}
use relayer_svc.Broadcaster.{
  Service, broadcast_task, catch_up_task, broadcast_deposit, check_existence, check_uncached, admit,
  load, store, now, on_world, cached, pick_child,
}
use relayer_svc.Broadcaster.Admission.{
  MayTry, admission_time, pending_deposit, broadcast_deposit_queues, broadcast_deposit_again,
  broadcast_deposit-MayTry,
}
use relayer_svc.Broadcaster.Recovery.{stored_row, row-broadcast_deposit}
use relayer_svc.Broadcaster.Waiting.Steps.{
  here, next, looks_up, advances, IsOrderlyBusy, Reaches-IsOrderly,
}
use relayer_svc.Broadcaster.Waiting.Calls.{Busy, looked_up, advance, proceed}
use relayer_svc.Broadcaster.Workers.{work, take_task}
use relayer_svc.Broadcaster.Crashes.{broadcast_panics, catch_up_submitted_panics}
use relayer_svc.Broadcaster.CatchUp.{start}
use relayer_svc.Broadcaster.Resumption.{start_resumes}
use relayer_svc.Tests.{
  calm, reporting, first, second, empty_world, config, idle, after_failure, failed_twice,
}

admitted : (broadcast_deposit calm config first idle).0 ≡ none
unfolding broadcast_deposit check_existence load store now on_world cached ◌>>=◌ check_processed get
    insert query exec select client pick_child
admitted = refl

retried : (broadcast_deposit calm config first after_failure).0 ≡ none
unfolding broadcast_deposit check_existence load store now on_world cached ◌>>=◌ check_processed get
    insert query exec select client pick_child identifier_to_predicate identifier_eq status_number
    ◌+ℤ◌ to_int64 update_recovery_data update
retried = refl

abbrev nothing_runs : Busy
nothing_runs = record { service = idle; calls = [] }

-- The deposit is admitted while nothing else happens.
abbrev after_admission : Busy
after_admission = advance calm config 0 (
    advance calm config 0
      (record { service = idle; calls = looked_up (broadcast_task first) ∷ [] }))

Reaches-IsOrderly_example : IsOrderlyBusy after_admission
unfolding has_slash cached
Reaches-IsOrderly_example =
    Reaches-IsOrderly calm config {b = nothing_runs}
      (record {
        orderly = record { keyed = tt; known = tt; distinct = tt };
        fresh = tt;
        apart = tt;
      })
      (next (next (next here (looks_up (broadcast_task first) refl refl tt)) (advances 0))
        (advances 0))

-- Two calls for one deposit that have both asked the cache before either stores the key.
abbrev racing : Busy
racing = record {
  service = idle;
  calls = looked_up (broadcast_task first) ∷ looked_up (broadcast_task first) ∷ [];
}

-- Both checks pass, and then both calls queue the deposit.
queued_twice :
    length
      (advance calm config 0 (
        advance calm config 0
          (advance calm config 1 (advance calm config 0 racing)))).service.withdrawals
    ≡ 2
unfolding advance proceed take_task check_uncached check_existence load store now on_world cached
    ◌>>=◌ check_processed get insert query exec select client pick_child admit
    identifier_to_predicate identifier_eq inserted_row update_recovery_data update text_eq id_string
queued_twice = refl

broadcast_deposit_queues_example :
    (cached (id_string first.identifier) idle.cache ≡ false)
    × (calm.is_processed idle.world.calls first ≡ some false)
    × ((broadcast_deposit calm config first idle).1.cache ≡ id_string first.identifier ∷ [])
    × ((broadcast_deposit calm config first idle).1.withdrawals
        ≡ broadcast_task (pending_deposit (admission_time calm idle) first) ∷ [])
unfolding cached
broadcast_deposit_queues_example = broadcast_deposit_queues calm config first idle refl admitted

broadcast_deposit_again_example :
    broadcast_deposit calm config first (broadcast_deposit calm config first idle).1
    ≡ (some err_already_exists, (broadcast_deposit calm config first idle).1)
unfolding cached
broadcast_deposit_again_example = broadcast_deposit_again calm calm config first idle refl admitted

broadcast_deposit-MayTry_example : MayTry config (pos 1000) (some failed_twice)
unfolding select identifier_to_predicate identifier_eq
broadcast_deposit-MayTry_example = broadcast_deposit-MayTry calm config first after_failure retried

row-broadcast_deposit_example :
    row first.identifier (broadcast_deposit calm config first idle).1.world.deposits
    ≡ some (stored_row calm first idle)
row-broadcast_deposit_example = row-broadcast_deposit calm config first idle admitted

id_string_injective_example : first.identifier ≡ first.identifier
unfolding has_slash
id_string_injective_example =
    id_string_injective first.identifier first.identifier refl refl refl refl refl

broadcast_panics_example : (work calm (broadcast_task first) idle).0 ≡ none
broadcast_panics_example = broadcast_panics calm (λ n. refl) first idle

abbrev submitting : Deposit
submitting = record first { withdrawal_status = submitting_to_core }

catch_up_submitted_panics_example :
    (work reporting (catch_up_task submitting) idle).0 ≡ some err_panic
unfolding to_transaction nil_or_not_empty is_some
catch_up_submitted_panics_example = catch_up_submitted_panics reporting submitting idle refl refl

-- The service stopped while one withdrawal ran and another waited.
abbrev restarted : Service
restarted = record idle {
  world = record empty_world {
    deposits = set_status processing first ∷ set_status pending second ∷ [];
  };
}

start_resumes_example :
    ((start calm config restarted).1.withdrawals
      ≡ catch_up_task (set_status pending second)
        ∷ catch_up_task (set_status processing first)
        ∷ [])
    × ((start calm config restarted).1.world.deposits
        ≡ set_status pending first ∷ set_status pending second ∷ [])
unfolding select select_all identifier_to_predicate identifier_eq has_status set_status
    status_number pick_child client has_slash
start_resumes_example =
    start_resumes calm config (λ n. refl) restarted refl (refl, (refl, tt))
      ((refl, refl), ((refl, refl), tt)) (refl, (refl, tt))
