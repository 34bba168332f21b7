-- ===== src/Containers/Signers/Rows.antt =====
-- What a run of a signers' container leaves in the table of epochs.
use mathlib.Core.Option
use relayer_svc.Base.{◌+◌, ◌≡◌, arith, ◌>>=◌, pure, if◌then◌else◌, ◌||◌}
use relayer_svc.Types.{EpochStatus, epoch_processed, epoch_failed}
use relayer_svc.Db.{Epoch, SignatureIdentifier, epoch_identifier}
use relayer_svc.Env.{Environment, World}
use relayer_svc.Postgres.{exec, update_where}
use relayer_svc.Postgres.Signatures.{epoch_identifier_to_predicate, set_status, update_status}
use relayer_svc.Postgres.Epochs.{epoch_row, same_identifier, epoch_row-update_where}
use relayer_svc.Containers.{execute_update_signers, unless_panic}
use relayer_svc.Containers.Signers.{run}

-- The status that the chain's answer calls for.
abbrev pub final_status : Environment → Epoch → World → EpochStatus
final_status env epoch w =
    if env.update_signers w.calls epoch then epoch_processed else epoch_failed

epochs-run :
    (env : Environment) (epoch : Epoch) (w : World)
    → (run env epoch w).1.epochs ≡ (
        if env.update_panics w.calls epoch || env.db_fault (w.calls + 1)
        then w.epochs
        else update_where
            (epoch_identifier_to_predicate (epoch_identifier epoch))
            (set_status (final_status env epoch w))
            w.epochs)
unfolding run ◌>>=◌ pure unless_panic execute_update_signers update_status exec
epochs-run env epoch w = ground arith

pub epoch_row-run :
    (env : Environment) (epoch : Epoch) (w : World) (j : SignatureIdentifier)
    → epoch_row j (run env epoch w).1.epochs ≡ (
        if env.update_panics w.calls epoch || env.db_fault (w.calls + 1)
        then epoch_row j w.epochs
        else if same_identifier (epoch_identifier epoch) j
        then Option.map (set_status (final_status env epoch w)) (epoch_row j w.epochs)
        else epoch_row j w.epochs)
epoch_row-run env epoch w j = rw (epochs-run env epoch w) (
    ground (
      arith,
      epoch_row-update_where (final_status env epoch w) (epoch_identifier epoch) j w.epochs,
    ))
