-- ===== src/Broadcaster/CatchUp.antt =====
-- `CatchUp` of internal/core/broadcaster/broadcaster.go, and internal/core/catch-upper.
use relayer_svc.Base.{
  Option, none, some, List, [], ◌∷◌, State, pure, ◌>>=◌, ◌>>◌, if◌then◌else◌, case_option,
}
use relayer_svc.Types.{
  Error, err_already_exists, err_panic, case_result, WithdrawalStatus, pending, processing,
  submitting_to_core, EpochStatus, epoch_pending, epoch_failed,
}
use relayer_svc.Db.{Deposit, Epoch}
use relayer_svc.Db.Text.{id_string}
use relayer_svc.Env.{Environment}
use relayer_svc.Postgres.Deposits.{update_status, get_with_status}
use relayer_svc.Postgres.Signatures
use relayer_svc.Broadcaster.{
  Service, Config, catch_up_task, on_world, load, store, pick_child, spawn,
}
use relayer_svc.Broadcaster.Epochs.{catch_up_epoch}

-- `CatchUp` after the cache was asked: the row goes back to PENDING, while the container keeps the deposit as
-- it was read.
unfoldable pub resume_uncached : Environment → Config → Deposit → State Service (Option Error)
resume_uncached env config d = do
  e ← on_world (update_status env d.identifier pending)
  case_option e
      (do
        store (id_string d.identifier)
        case_option (pick_child config d.withdrawal_chain_id) (spawn (catch_up_task d))
            λ e'. pure (some e'))
      λ e'. pure (some e')

unfoldable pub catch_up : Environment → Config → Deposit → State Service (Option Error)
unfolding resume_uncached
catch_up env config d = do
  known ← load (id_string d.identifier)
  if known then pure (some err_already_exists) else resume_uncached env config d

-- The loops go on past an error, which they log; a panic ends them.
unfoldable pub go_on : State Service (Option Error) → Option Error → State Service (Option Error)
go_on rest (some err_panic) = pure (some err_panic)
go_on rest _ = rest

unfoldable pub catch_up_all : Environment → Config → List Deposit → State Service (Option Error)
unfolding go_on
catch_up_all env config [] = pure none
catch_up_all env config (d ∷ ds) = catch_up env config d >>= go_on (catch_up_all env config ds)

-- `catchupWithStatus`
unfoldable pub catchup_with_status :
    Environment → Config → WithdrawalStatus → State Service (Option Error)
catchup_with_status env config status = do
  found ← on_world (get_with_status env status)
  case_result found (catch_up_all env config) λ e. pure (some e)

unfoldable pub catch_up_epochs : Config → List Epoch → State Service (Option Error)
unfolding go_on
catch_up_epochs config [] = pure none
catch_up_epochs config (e ∷ es) = catch_up_epoch config e >>= go_on (catch_up_epochs config es)

-- `catchupEpochsWithStatus`
unfoldable pub catchup_epochs_with_status :
    Environment → Config → EpochStatus → State Service (Option Error)
catchup_epochs_with_status env config status = do
  found ← on_world (Signatures.get_with_status env status)
  case_result found (catch_up_epochs config) λ e. pure (some e)

-- The next step, unless the one before failed.
unfoldable pub or_stop : State Service (Option Error) → Option Error → State Service (Option Error)
or_stop m none = m
or_stop m (some e) = pure (some e)

-- `CatchUpper.Start`
unfoldable pub start : Environment → Config → State Service (Option Error)
unfolding or_stop
start env config =
    catchup_with_status env config pending
    >>= or_stop (catchup_with_status env config processing)
    >>= or_stop (catchup_with_status env config submitting_to_core)
    >>= or_stop (catchup_epochs_with_status env config epoch_pending)
    >>= or_stop (catchup_epochs_with_status env config epoch_failed)
