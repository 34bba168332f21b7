-- ===== src/Broadcaster/Admission.antt =====
-- What `BroadcastDeposit` does to the cache and to the waiting tasks.
use relayer_svc.Base.{
  ℕ, ◌+◌, ℤ, pos, if◌then◌else◌, ltb_ℤ, ◌+ℤ◌, to_int64, ◌≡◌, refl, ◌⊎◌, true, false, Option, none,
  some, List, [], ◌∷◌, ◌++◌, arith, ◌>>=◌, case_option,
}
use relayer_svc.Types.{Error, err_already_exists, pending, failed, status_number}
use relayer_svc.Postgres.{query}
use relayer_svc.Postgres.Deposits.{get}
use relayer_svc.Postgres.Rows.{row}
use relayer_svc.Containers.{check_processed}
use relayer_svc.Db.{Deposit}
use relayer_svc.Db.Text.{codes, id_string, text_eq, text_eq_iff}
use relayer_svc.Env.{Environment}
use relayer_svc.Broadcaster.{
  Service, Config, Task, broadcast_task, catch_up_task, on_world, cached, load, store, now,
  check_existence, prepared, check_recovery, broadcast_deposit,
}

-- The deposit that a task is for, and the key under which the cache knows it.
abbrev pub task_deposit : Task → Deposit
task_deposit (broadcast_task d) = d
task_deposit (catch_up_task d) = d

abbrev pub task_key : Task → List ℕ
task_key t = id_string (task_deposit t).identifier

-- How an attempt to queue a deposit can change the cache and the waiting tasks.
abbrev pub Effect : List ℕ → Service → Service → Type 0
Effect key s s' =
    ((s'.cache ≡ s.cache) × (s'.withdrawals ≡ s.withdrawals))
    ⊎ ((cached key s.cache ≡ false) × (s'.cache ≡ key ∷ s.cache) × (s'.withdrawals ≡ s.withdrawals))
    ⊎ ((t : Task) × (task_key t ≡ key)
        × (cached key s.cache ≡ false)
        × (s'.cache ≡ key ∷ s.cache)
        × (s'.withdrawals ≡ s.withdrawals ++ t ∷ []))

-- A call that returns an error queues no withdrawal.
pub withdrawals-broadcast_deposit :
    (env : Environment) (config : Config) (d : Deposit) (s : Service) (e : Error)
    → (broadcast_deposit env config d s).0 ≡ some e
    → (broadcast_deposit env config d s).1.withdrawals ≡ s.withdrawals
unfolding broadcast_deposit check_existence ◌>>=◌ load store on_world now
withdrawals-broadcast_deposit env config d s e h = ground arith

-- The time that the call reads when it stores the row.
abbrev pub admission_time : Environment → Service → ℤ
admission_time env s = env.now (s.world.calls + 1 + 1)

-- The deposit, PENDING, with the time given in place of a recovery time before 1970.
abbrev pub pending_deposit : ℤ → Deposit → Deposit
pending_deposit time d = record d {
  withdrawal_status = pending;
  recovery_timestamp = if ltb_ℤ d.recovery_timestamp (pos 0) then time else d.recovery_timestamp;
}

-- If the bare transaction hash is no key of the cache, a call that succeeds found the deposit neither
-- in the cache nor on its chain, and has queued one task for it, PENDING, and put its key into the
-- cache.
pub broadcast_deposit_queues :
    (env : Environment) (config : Config) (d : Deposit) (s : Service)
    → cached (codes d.tx_hash) s.cache ≡ false
    → (broadcast_deposit env config d s).0 ≡ none
    → (cached (id_string d.identifier) s.cache ≡ false)
      × (env.is_processed s.world.calls d ≡ some false)
      × ((broadcast_deposit env config d s).1.cache ≡ id_string d.identifier ∷ s.cache)
      × ((broadcast_deposit env config d s).1.withdrawals
          ≡ s.withdrawals ++ broadcast_task (pending_deposit (admission_time env s) d) ∷ [])
unfolding prepared broadcast_deposit check_existence ◌>>=◌ load store on_world now check_processed
    get query
broadcast_deposit_queues env config d s plain h =
    (ground arith, ground arith, ground arith, ground arith)

-- What the table says of a deposit that may be tried (again): nothing, or a failed withdrawal with
-- attempts left whose waiting time is over.
abbrev pub MayTry : Config → ℤ → Option Deposit → Type 0
MayTry config time none = Unit {0}
MayTry config time (some row) =
    (row.withdrawal_status ≡ failed)
    × (ltb_ℤ row.recovery_attempts (to_int64 config.recovery_attempts) ≡ true)
    × (ltb_ℤ time (row.recovery_timestamp +ℤ config.recovery_timeout) ≡ false)

check_recovery-MayTry :
    (config : Config) (time : ℤ) (found : Option Deposit)
    → case_option found none (check_recovery config time) ≡ none
    → MayTry config time found
unfolding check_recovery status_number
check_recovery-MayTry config time none h = tt
check_recovery-MayTry config time (some r) h = (ground arith, ground arith, ground arith)

-- A call succeeds only if the deposit may be tried: it had no row, or one that is FAILED, has attempts
-- left and has waited out the timeout at the time that the call reads.
pub broadcast_deposit-MayTry :
    (env : Environment) (config : Config) (d : Deposit) (s : Service)
    → (broadcast_deposit env config d s).0 ≡ none
    → MayTry config (admission_time env s) (row d.identifier s.world.deposits)
unfolding broadcast_deposit check_existence ◌>>=◌ load store on_world now check_processed get query
broadcast_deposit-MayTry env config d s h =
    check_recovery-MayTry config (admission_time env s) (row d.identifier s.world.deposits)
      (ground arith)

text_eq_refl : (key : List ℕ) → text_eq key key ≡ true
text_eq_refl key = (text_eq_iff key key).1 refl

pub cached_self : (key : List ℕ) (keys : List (List ℕ)) → cached key (key ∷ keys) ≡ true
unfolding cached
cached_self key keys = rw (text_eq_refl key)

broadcast_deposit-cached :
    (env : Environment) (config : Config) (d : Deposit) (s : Service)
    → cached (id_string d.identifier) s.cache ≡ true
    → broadcast_deposit env config d s ≡ (some err_already_exists, s)
unfolding broadcast_deposit check_existence ◌>>=◌ load
broadcast_deposit-cached env config d s h = ground arith

-- If the bare transaction hash is no key of the cache, a deposit that was queued is refused as existing
-- when it comes again at once, and the second call changes nothing.
pub broadcast_deposit_again :
    (env env' : Environment) (config : Config) (d : Deposit) (s : Service)
    → cached (codes d.tx_hash) s.cache ≡ false
    → (broadcast_deposit env config d s).0 ≡ none
    → broadcast_deposit env' config d (broadcast_deposit env config d s).1
      ≡ (some err_already_exists, (broadcast_deposit env config d s).1)
broadcast_deposit_again env env' config d s plain h =
    broadcast_deposit-cached env' config d _
      (rw (broadcast_deposit_queues env config d s plain h).2 (cached_self _ s.cache))
