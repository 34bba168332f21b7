-- ===== src/Containers/Signers.antt =====
-- internal/core/broadcaster/containers/update_signers_{broadcast,catchup}_container.go. The two `Run`
-- methods differ in what they log and in the texts of their errors.
pub mod Rows
use relayer_svc.Base.{◌≡◌, Option, none, some, State, pure, ◌>>=◌, ◌>>◌, arith}
use relayer_svc.Types.{Error, epoch_processed, epoch_failed}
use relayer_svc.Db.{Epoch, epoch_identifier}
use relayer_svc.Env.{Environment, World}
use relayer_svc.Postgres.{exec}
use relayer_svc.Postgres.Signatures.{update_status}
use relayer_svc.Containers.{execute_update_signers, unless_panic}

-- The broadcast container: where the status cannot be updated, its error is the signers' too.
unfoldable pub run : Environment → Epoch → State World (Option Epoch × Option Error)
unfolding unless_panic
run env epoch = do
  e ← execute_update_signers env epoch
  elim e [
    | some e' ↦
        unless_panic
          (λ x. do
            u ← update_status env (epoch_identifier epoch) epoch_failed
            elim u [ some u' ↦ pure (none, some x) | none ↦ pure (none, some x) ])
          e'
    | none ↦ do
      u ← update_status env (epoch_identifier epoch) epoch_processed
      pure (elim u [ none ↦ (some epoch, none) | some u' ↦ (none, some u') ])
  ]

-- The catch-up container: an update that fails is logged.
unfoldable pub run_catch_up : Environment → Epoch → State World (Option Epoch × Option Error)
unfolding unless_panic
run_catch_up env epoch = do
  e ← execute_update_signers env epoch
  elim e [
    | some e' ↦
        unless_panic
          (λ x. do update_status env (epoch_identifier epoch) epoch_failed; pure (none, some x)) e'
    | none ↦ do
      u ← update_status env (epoch_identifier epoch) epoch_processed
      pure (elim u [ none ↦ (some epoch, none) | some u' ↦ (none, some u') ])
  ]

-- So a task of the signers' workers is its epoch, whichever container holds it.
pub run_catch_up-run :
    (env : Environment) (epoch : Epoch) (w : World) → run_catch_up env epoch w ≡ run env epoch w
unfolding run run_catch_up ◌>>=◌ pure
run_catch_up-run env epoch w = ground arith
