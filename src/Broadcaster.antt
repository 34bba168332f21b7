-- ===== src/Broadcaster.antt =====
-- internal/core/broadcaster/broadcaster.go: the broadcaster's state, and the admission of deposits.
-- A goroutine that waits to hand a container to its chain's workers is a task in `withdrawals` or
-- `signers`; the workers take tasks from there (Workers.antt).
pub mod Epochs
pub mod CatchUp
pub mod Workers
pub mod Submitter
pub mod Admission
pub mod Recovery
pub mod Limits
pub mod Run
pub mod Resumption
pub mod Waiting
pub mod Batches
pub mod Blocked
pub mod Crashes
use relayer_svc.Base.{
  String, ℕ, ◌+◌, ◌==◌, ℤ, pos, ◌+ℤ◌, ltb_ℤ, to_int64, Bool, true, false, not, ◌||◌, Option, none,
  some, List, [], ◌∷◌, ◌++◌, State, pure, ◌>>=◌, ◌>>◌, if◌then◌else◌, case_option,
}
use relayer_svc.Types.{
  Error, err_already_exists, err_failed_to_broadcast, err_chain, err_panic, Result, ok, err,
  case_result, WithdrawalStatus, pending, failed, status_number,
}
use relayer_svc.Db.{DepositIdentifier, Deposit, Epoch}
use relayer_svc.Db.Text.{codes, id_string, text_eq}
use relayer_svc.Env.{Environment, World}
use relayer_svc.Postgres.Deposits.{get, insert, set_status}
use relayer_svc.Containers.{check_processed}
use relayer_svc.Repository.{Clients, Client, client}

-- A container waiting for a worker of the deposit's withdrawal chain.
pub data Task : Type 0 where
  broadcast_task catch_up_task : Deposit → Task

pub record Config : Type 0 where
  pub clients : Clients
  pub recovery_attempts : ℕ
  pub recovery_timeout : ℤ
  pub submit_batch_size : ℕ
  pub min_gas_price : ℕ

pub record Service : Type 0 where
  pub world : World
  pub cache : List (List ℕ)
  pub withdrawals : List Task
  pub signers : List Epoch
  pub submissions : List Deposit

unfoldable pub on_world : {A : Type 0} → State World A → State Service A
on_world m s = let (a, w) = m s.world in (a, record s { world = w })

-- `cache.Load`, `cache.Store` and `cache.Delete` of the sync.Map.
unfoldable pub cached : List ℕ → List (List ℕ) → Bool
cached key [] = false
cached key (k ∷ ks) = text_eq k key || cached key ks

unfoldable pub uncache : List ℕ → List (List ℕ) → List (List ℕ)
uncache key [] = []
uncache key (k ∷ ks) = let rest = uncache key ks in if text_eq k key then rest else k ∷ rest

unfoldable pub load : List ℕ → State Service Bool
load key s = (cached key s.cache, s)

unfoldable pub store : List ℕ → State Service (Unit {0})
store key s = (tt, record s { cache = if cached key s.cache then s.cache else key ∷ s.cache })

unfoldable pub now : Environment → State Service ℤ
now env s = (env.now s.world.calls, s)

-- The tests on a row that was found: only a failed withdrawal, with attempts left and its waiting
-- time over, may be tried again. `deposit` is a copy there, so the attempts and the time that the
-- function writes into it at the end are lost when it returns, and are left out.
unfoldable pub check_recovery : Config → ℤ → Deposit → Option Error
check_recovery config time row =
    if not (status_number row.withdrawal_status == status_number failed)
    then some err_failed_to_broadcast
    else if not (ltb_ℤ row.recovery_attempts (to_int64 config.recovery_attempts))
    then some err_already_exists
    else if ltb_ℤ time (row.recovery_timestamp +ℤ config.recovery_timeout)
    then some err_already_exists
    else none

unfoldable pub check_row : Environment → Config → Deposit → State Service (Option Error)
unfolding check_recovery
check_row env config d = do
  found ← on_world (get env d.identifier)
  time ← now env
  pure (case_result found (λ row. case_option row none (check_recovery config time)) some)

unfoldable pub check_chain : Environment → Config → Deposit → State Service (Option Error)
unfolding check_row
check_chain env config d = do
  answer ← on_world (check_processed env d)
  case_option answer (pure (some err_chain)) λ processed.
      if processed
      then (do store (id_string d.identifier); pure (some err_already_exists))
      else check_row env config d

-- `checkExistence` after the cache was asked.
unfoldable pub check_uncached : Environment → Config → Deposit → State Service (Option Error)
unfolding check_chain
check_uncached env config d =
    case_result (client config.clients d.withdrawal_chain_id) (λ c. check_chain env config d)
      (λ e. pure (some e))

-- `checkExistence`
unfoldable pub check_existence : Environment → Config → Deposit → State Service (Option Error)
unfolding check_uncached
check_existence env config d = do
  known ← load (id_string d.identifier)
  if known then pure (some err_already_exists) else check_uncached env config d

-- The client of a chain, and one of its children: `rand.Intn(0)` panics.
unfoldable pub pick_child : Config → String → Option Error
pick_child config chain_id =
    case_result (client config.clients chain_id)
      (λ c. if c.child_clients == 0 then some err_panic else none) some

unfoldable pub spawn : Task → State Service (Option Error)
spawn task s = (none, record s { withdrawals = s.withdrawals ++ task ∷ [] })

-- A panic passes through; any other failure to get a client is wrapped.
pub unavailable : Error → Error
unavailable err_panic = err_panic
unavailable _ = err_failed_to_broadcast

-- What `BroadcastDeposit` does once the row is stored. The cache is asked for the hash alone, which
-- is no key that it stores.
unfoldable pub enqueue : Config → Deposit → State Service (Option Error)
unfolding spawn unavailable
enqueue config d =
    case_option (pick_child config d.withdrawal_chain_id)
      (do
        known ← load (codes d.tx_hash)
        if known
            then spawn (broadcast_task d)
            else do store (id_string d.identifier); spawn (broadcast_task d))
      λ e. pure (some (unavailable e))

-- The row that `BroadcastDeposit` stores and the container gets.
unfoldable pub prepared : ℤ → Deposit → Deposit
prepared time d = record d {
  withdrawal_status = pending;
  recovery_timestamp = if ltb_ℤ d.recovery_timestamp (pos 0) then time else d.recovery_timestamp;
}

unfoldable pub admit : Environment → Config → Deposit → State Service (Option Error)
unfolding prepared enqueue
admit env config d = do
  time ← now env
  e ← on_world (insert env (prepared time d))
  case_option e (enqueue config (prepared time d)) λ _. pure (some err_failed_to_broadcast)

-- `errors.Is(err, ErrAlreadyExists)`
refusal : Error → Error
refusal err_already_exists = err_already_exists
refusal _ = err_failed_to_broadcast

unfoldable pub broadcast_deposit : Environment → Config → Deposit → State Service (Option Error)
unfolding admit refusal
broadcast_deposit env config d = do
  e ← check_existence env config d
  case_option e (admit env config d) λ e'. pure (some (refusal e'))
