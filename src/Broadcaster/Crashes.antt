-- ===== src/Broadcaster/Crashes.antt =====
-- How a worker's round ends: which deposits are handed on, which may be tried again, and when the
-- nil deposit of a failed container brings the process down.
use relayer_svc.Base.{
  ℕ, ◌+◌, ◌≡◌, refl, Bool, not, ◌&&◌, if◌then◌else◌, true, false, Option, none, some, List, [], ◌∷◌,
  ◌++◌, subst, arith, ◌>>=◌, case_option,
}
use relayer_svc.Types.{Error, err_panic, processing, submitting_to_core}
use relayer_svc.Db.{Deposit}
use relayer_svc.Db.Text.{text_eq_iff}
use relayer_svc.Env.{Environment, World}
use relayer_svc.Postgres.{exec}
use relayer_svc.Postgres.Deposits.{set_status, update, update_status, update_withdrawal_details}
use relayer_svc.Connector.{get_deposit, to_query, tx_to_deposit}
use relayer_svc.Containers.{Outcome, check_processed, execute_withdrawal, unless_panic}
use relayer_svc.Containers.Broadcast
use relayer_svc.Containers.Catchup
use relayer_svc.Broadcaster.{
  Service, Task, broadcast_task, catch_up_task, on_world, cached, uncache,
}
use relayer_svc.Broadcaster.Workers.{work, settle, run_container}
use relayer_svc.Broadcaster.Admission.{task_deposit, task_key}
use relayer_svc.Broadcaster.Waiting.Rounds.{container-Answers}
use relayer_svc.Containers.Returned.{Answers}
use relayer_svc.Broadcaster.Blocked.{has_hash}
use relayer_svc.Containers.Catchup.{is_some}

settle_panics :
    (o : Outcome) (s : Service) → (settle o s).0 ≡ (if is_some o.0 then none else some err_panic)
unfolding settle is_some
settle_panics (none, none) s = refl
settle_panics (none, some e) s = refl
settle_panics (some d, none) s = refl
settle_panics (some d, some e) s = refl

-- The run comes to call Withdraw, and the call panics.
abbrev pub meets_panic : Environment → Deposit → World → Bool
meets_panic env d w = case_option (env.is_processed w.calls d) false λ done.
    not done
    && (env.withdraw (w.calls + 1 + 1) (record d { withdrawal_status = processing })).panics

broadcast_returns :
    (env : Environment)
    → ((n : ℕ) → env.db_fault n ≡ false)
    → (d : Deposit) (w : World) → is_some (Broadcast.run env d w).0.0 ≡ not (meets_panic env d w)
unfolding is_some Broadcast.run Broadcast.reject Broadcast.report_withdrawn Broadcast.report_failure
    Broadcast.report_unstored Broadcast.submit Broadcast.store_details Broadcast.process
    Broadcast.start check_processed update_status update update_withdrawal_details
    execute_withdrawal exec set_status unless_panic ◌>>=◌
broadcast_returns env live d w = ground (
  arith,
  live (w.calls + 1),
  live (w.calls + 1 + 1),
  live (w.calls + 1 + 1 + 1 + 1),
  live (w.calls + 1 + 1 + 1 + 1 + 1),
)

-- With a working database, a worker's round on a new deposit ends the process exactly if the chain said
-- that the deposit was open and the call of Withdraw that follows panics.
pub broadcast_panics :
    (env : Environment)
    → ((n : ℕ) → env.db_fault n ≡ false)
    → (d : Deposit) (s : Service)
    → (work env (broadcast_task d) s).0
      ≡ (if meets_panic env d s.world then some err_panic else none)
unfolding work run_container on_world ◌>>=◌
broadcast_panics env live d s = ground (
  arith,
  settle_panics (Broadcast.run env d s.world).0
      (record s { world = (Broadcast.run env d s.world).1 }),
  broadcast_returns env live d s.world,
)

-- A deposit that was being submitted when the service stopped, and that the core has a withdrawal
-- hash for, ends the process when it is caught up, whatever the database answers.
pub catch_up_submitted_panics :
    (env : Environment) (d : Deposit) (s : Service)
    → d.withdrawal_status ≡ submitting_to_core
    → has_hash (env.transaction_by_id s.world.calls (to_query d.identifier)) ≡ true
    → (work env (catch_up_task d) s).0 ≡ some err_panic
unfolding work settle run_container on_world ◌>>=◌ Catchup.run Catchup.resume_submission
    Catchup.is_submitted Catchup.close_submitted get_deposit tx_to_deposit
catch_up_submitted_panics env d s e h = ground arith

cached-uncache_self : (key : List ℕ) (keys : List (List ℕ)) → cached key (uncache key keys) ≡ false
unfolding cached uncache
cached-uncache_self key [] = refl
cached-uncache_self key (k ∷ ks) = ground (arith, text_eq_iff k key, cached-uncache_self key ks)

-- A round that fails and returns its deposit takes the deposit's key out of the cache, so that the
-- deposit can be admitted again; one that succeeds hands the deposit to the submitter.
pub work_settles :
    (env : Environment) (t : Task) (s : Service) (d : Deposit) (e : Option Error)
    → (run_container env t s.world).0 ≡ (some d, e)
    → case_option e
        ((work env t s).1.submissions ≡ s.submissions ++ d ∷ [])
        λ x. cached (task_key t) (work env t s).1.cache ≡ false
unfolding work settle on_world ◌>>=◌
work_settles env t s d none h = ground arith
work_settles env t s d (some x) h = ground (
  arith,
  subst (Answers (task_deposit t).identifier) h (container-Answers env t s.world),
  cached-uncache_self (task_key t) s.cache,
)
