-- ===== src/Broadcaster/Recovery.antt =====
-- What `BroadcastDeposit` stores, and what becomes of the recovery counters.
use mathlib.Core.Option
use relayer_svc.Base.{◌+◌, ◌≡◌, refl, none, some, arith, ◌>>=◌, case_option}
use relayer_svc.Db.{Deposit}
use relayer_svc.Env.{Environment, World}
use relayer_svc.Postgres.{query}
use relayer_svc.Containers.{check_processed}
use relayer_svc.Postgres.Deposits.{get, insert}
use relayer_svc.Postgres.Rows.{row, new_row, retried_row, row-insert, identifier_eq_iff}
use relayer_svc.Broadcaster.{
  Service, Config, on_world, load, store, now, check_existence, prepared, broadcast_deposit,
}
use relayer_svc.Broadcaster.Admission.{admission_time, pending_deposit}

-- A new deposit's row, or the old row with the deposit's recovery data.
abbrev pub stored_row : Environment → Deposit → Service → Deposit
stored_row env d s =
    case_option (row d.identifier s.world.deposits)
      (new_row (pending_deposit (admission_time env s) d))
      (retried_row (pending_deposit (admission_time env s) d))

insert_of_success :
    (env : Environment) (config : Config) (d : Deposit) (s : Service)
    → (broadcast_deposit env config d s).0 ≡ none
    → (w : World) × (w.deposits ≡ s.world.deposits)
      × ((insert env (prepared (admission_time env s) d) w).0 ≡ none)
      × ((broadcast_deposit env config d s).1.world
          ≡ (insert env (prepared (admission_time env s) d) w).1)
unfolding broadcast_deposit check_existence ◌>>=◌ load store on_world now check_processed get query
insert_of_success env config d s h =
    (record (s.world) { calls = s.world.calls + 1 + 1 }, refl, ground arith, ground arith)

-- A successful call leaves the deposit's row PENDING, with the deposit's recovery attempts and recovery
-- time, or the time of the call in place of a time before 1970. A new row holds the deposit's other
-- columns, without a withdrawal hash and an operator; a row that was there keeps its own.
pub row-broadcast_deposit :
    (env : Environment) (config : Config) (d : Deposit) (s : Service)
    → (broadcast_deposit env config d s).0 ≡ none
    → row d.identifier (broadcast_deposit env config d s).1.world.deposits
      ≡ some (stored_row env d s)
unfolding prepared
row-broadcast_deposit env config d s h =
    let (w, same, done, after) = insert_of_success env config d s h in
    rw after (
      ground (
        arith,
        same,
        row-insert env (prepared (admission_time env s) d) w d.identifier done,
        identifier_eq_iff d.identifier d.identifier,
      ))
