-- ===== src/Broadcaster/Limits.antt =====
-- `New`, `WithRecoveryAttempts` and `WithRecoveryTimeout` of internal/core/broadcaster/broadcaster.go: the
-- two limits of a recovery are fields of the broadcaster, which the observer and the API share.
use relayer_svc.Base.{ℕ, ℤ, pos, Option, State}
use relayer_svc.Types.{Error}
use relayer_svc.Db.{Deposit}
use relayer_svc.Env.{Environment}
use relayer_svc.Broadcaster.{Service, Config, broadcast_deposit}

pub record Limits : Type 0 where
  pub attempts : ℕ
  pub timeout : ℤ

-- The limits of `New`, which sets neither.
abbrev pub new_limits : Limits
new_limits = record { attempts = 0; timeout = pos 0 }

pub record Shared : Type 0 where
  pub service : Service
  pub limits : Limits

unfoldable pub on_service : {A : Type 0} → State Service A → State Shared A
on_service m s = let (a, t) = m s.service in (a, record s { service = t })

-- The configuration that the broadcaster goes by.
abbrev pub with_limits : Limits → Config → Config
with_limits l config = record config {
  recovery_attempts = l.attempts;
  recovery_timeout = l.timeout;
}

unfoldable pub with_recovery_attempts : ℕ → State Shared (Unit {0})
with_recovery_attempts n s = (tt, record s { limits = record (s.limits) { attempts = n } })

unfoldable pub with_recovery_timeout : ℤ → State Shared (Unit {0})
with_recovery_timeout t s = (tt, record s { limits = record (s.limits) { timeout = t } })

-- `BroadcastDeposit`, under the limits that the broadcaster holds.
unfoldable pub broadcast_deposit_limited :
    Environment → Config → Deposit → State Shared (Option Error)
unfolding on_service
broadcast_deposit_limited env config d s =
    on_service (broadcast_deposit env (with_limits s.limits config) d) s
