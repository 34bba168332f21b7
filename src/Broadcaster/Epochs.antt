-- ===== src/Broadcaster/Epochs.antt =====
-- `BroadcastEpoch` and `CatchUpEpoch` of internal/core/broadcaster/broadcaster.go.
use relayer_svc.Base.{Option, none, some, [], ◌∷◌, ◌++◌, State, pure, ◌>>=◌, case_option}
use relayer_svc.Types.{
  Error, err_already_exists, err_failed_to_broadcast, case_result, epoch_pending,
}
use relayer_svc.Db.{Epoch, epoch_identifier}
use relayer_svc.Env.{Environment}
use relayer_svc.Postgres.Signatures.{get, insert, set_status}
use relayer_svc.Broadcaster.{Service, Config, on_world, pick_child, unavailable}

unfoldable pub spawn_epoch : Epoch → State Service (Option Error)
spawn_epoch epoch s = (none, record s { signers = s.signers ++ epoch ∷ [] })

unfoldable pub insert_epoch : Environment → Config → Epoch → State Service (Option Error)
unfolding spawn_epoch unavailable
insert_epoch env config epoch = do
  e ← on_world (insert env epoch)
  case_option e
      (case_option (pick_child config epoch.chain_id) (spawn_epoch epoch)
        λ e'. pure (some (unavailable e')))
      λ e'. pure (some err_failed_to_broadcast)

unfoldable pub broadcast_epoch : Environment → Config → Epoch → State Service (Option Error)
unfolding insert_epoch
broadcast_epoch env config epoch = do
  existing ← on_world (get env (epoch_identifier epoch))
  case_result existing
      (λ row.
        case_option row (insert_epoch env config (set_status epoch_pending epoch))
          λ e. pure (some err_already_exists))
      λ e. pure (some err_failed_to_broadcast)

unfoldable pub catch_up_epoch : Config → Epoch → State Service (Option Error)
unfolding spawn_epoch
catch_up_epoch config epoch =
    case_option (pick_child config epoch.chain_id) (spawn_epoch epoch) λ e. pure (some e)
