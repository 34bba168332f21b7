-- ===== src/Api/Submission.antt =====
-- What `SubmitWithdrawal` admits and what it refuses.
use relayer_svc.Base.{
  ◌+◌, ◌≡◌, refl, Option-cases, inl, inr, State, pure, true, Option, none, some, arith, ◌>>=◌,
}
use relayer_svc.Types.{Result, ok, err, case_result}
use relayer_svc.Db.{DepositIdentifier, Deposit}
use relayer_svc.Env.{Environment}
use relayer_svc.Connector.{get_deposit}
use relayer_svc.Repository.{supports_chain}
use relayer_svc.Broadcaster.{Config, on_world, broadcast_deposit}
use relayer_svc.Broadcaster.Limits.{
  Limits, Shared, on_service, with_recovery_attempts, with_recovery_timeout,
  broadcast_deposit_limited,
}
use relayer_svc.Broadcaster.Admission.{withdrawals-broadcast_deposit}
use relayer_svc.Api.{Rules, to_db_identifier}
use relayer_svc.Api.Handlers.{
  Code, fetch_code, submit_withdrawal, submit_identified, submit_deposit, hand_over,
}

-- The service once the core was asked for a deposit.
abbrev pub asked : Shared → Shared
asked s = record s {
  service = record (s.service) {
    world = record (s.service.world) { calls = s.service.world.calls + 1 };
  };
}

-- The limits that the API is configured with.
abbrev pub configured : Config → Limits
configured config = record {
  attempts = config.recovery_attempts;
  timeout = config.recovery_timeout;
}

-- The deposit is open, and is admitted by the broadcaster.
abbrev pub IsAdmitted : Environment → Config → Deposit → Shared → Shared → Type 0
IsAdmitted env config d s t =
    (supports_chain config.clients d.withdrawal_chain_id ≡ true)
    × (d.withdrawal_tx_hash ≡ none)
    × ((broadcast_deposit env config d s.service).0 ≡ none)
    × ((broadcast_deposit env config d s.service).1 ≡ t.service)
    × (t.limits ≡ configured config)

submit_deposit-IsAdmitted :
    (env : Environment) (config : Config) (d : Deposit) (s : Shared)
    → (submit_deposit env config d s).0 ≡ none
    → IsAdmitted env config d s (submit_deposit env config d s).1
unfolding submit_deposit hand_over ◌>>=◌ with_recovery_attempts with_recovery_timeout
    broadcast_deposit_limited on_service
submit_deposit-IsAdmitted env config d s h =
    (ground arith, ground arith, ground arith, ground arith, ground arith)

withdrawals-submit_deposit :
    (env : Environment) (config : Config) (d : Deposit) (s : Shared) (c : Code)
    → (submit_deposit env config d s).0 ≡ some c
    → (submit_deposit env config d s).1.service.withdrawals ≡ s.service.withdrawals
unfolding submit_deposit hand_over ◌>>=◌ with_recovery_attempts with_recovery_timeout
    broadcast_deposit_limited on_service
withdrawals-submit_deposit env config d s c h =
    elim (Option-cases (broadcast_deposit env config d s.service).0) [
      | inl e ↦ ground arith
      | inr (x, e) ↦ ground (arith, withdrawals-broadcast_deposit env config d s.service x e)
    ]

-- What `SubmitWithdrawal` does with what the core answered.
abbrev pub respond : Environment → Config → Result Deposit → State Shared (Option Code)
respond env config r = case_result r (submit_deposit env config) λ e. pure (some (fetch_code e))

respond-IsAdmitted :
    (env : Environment) (config : Config) (r : Result Deposit) (s : Shared)
    → (respond env config r s).0 ≡ none
    → case_result r (λ d. IsAdmitted env config d s (respond env config r s).1) λ e. ⊥
unfolding pure
respond-IsAdmitted env config (ok d) s h = submit_deposit-IsAdmitted env config d s h
respond-IsAdmitted env config (err e) s h = ground arith

withdrawals-respond :
    (env : Environment) (config : Config) (r : Result Deposit) (s : Shared) (c : Code)
    → (respond env config r s).0 ≡ some c
    → (respond env config r s).1.service.withdrawals ≡ s.service.withdrawals
unfolding pure
withdrawals-respond env config (ok d) s c h = withdrawals-submit_deposit env config d s c h
withdrawals-respond env config (err e) s c h = refl

-- A submission that is answered without an error has the broadcaster admit, with its effect, the
-- deposit that the core answered with, which is open and whose withdrawal chain is supported, under the
-- configured limits, which the broadcaster then keeps.
pub submit_withdrawal-IsAdmitted :
    (rules : Rules) (env : Environment) (config : Config) (id : DepositIdentifier) (s : Shared)
    → (submit_withdrawal rules env config (some id) s).0 ≡ none
    → case_result
        (get_deposit env (to_db_identifier id) s.service.world).0
        (λ d. IsAdmitted env config d (asked s) (submit_withdrawal rules env config (some id) s).1)
        λ e. ⊥
unfolding submit_withdrawal submit_identified get_deposit on_world on_service ◌>>=◌
submit_withdrawal-IsAdmitted rules env config id s h = ground (
  arith,
  respond-IsAdmitted env config (get_deposit env (to_db_identifier id) s.service.world).0 (asked s),
)

-- A submission that is answered with an error queues no withdrawal.
pub withdrawals-submit_withdrawal :
    (rules : Rules) (env : Environment) (config : Config) (id : Option DepositIdentifier)
    (s : Shared) (c : Code)
    → (submit_withdrawal rules env config id s).0 ≡ some c
    → (submit_withdrawal rules env config id s).1.service.withdrawals ≡ s.service.withdrawals
unfolding submit_withdrawal submit_identified get_deposit on_world on_service ◌>>=◌
withdrawals-submit_withdrawal rules env config none s c h = ground arith
withdrawals-submit_withdrawal rules env config (some id) s c h = ground (
  arith,
  withdrawals-respond env config (get_deposit env (to_db_identifier id) s.service.world).0 (asked s)
      c,
)
