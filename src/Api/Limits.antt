-- ===== src/Api/Limits.antt =====
-- The limits of a recovery over the life of the broadcaster that the observer and the API share.
use relayer_svc.Base.{
  pos, ltb_ℤ, to_int64, ◌≡◌, refl, ap, subst, ◌∙◌, inl, inr, true, false, Bool-cases, Option, none,
  some, arith, ◌>>=◌, pure, Option-cases,
}
use relayer_svc.Types.{Error, Result, ok, err}
use relayer_svc.Db.{DepositIdentifier, Deposit}
use relayer_svc.Env.{Environment}
use relayer_svc.Postgres.Rows.{row}
use relayer_svc.Connector.{get_deposit}
use relayer_svc.Broadcaster.{Service, Config, on_world, broadcast_deposit}
use relayer_svc.Broadcaster.Admission.{
  MayTry, admission_time, broadcast_deposit-MayTry, withdrawals-broadcast_deposit,
}
use relayer_svc.Broadcaster.Limits.{
  new_limits, Shared, with_limits, on_service, broadcast_deposit_limited,
}
use relayer_svc.Repository.{supports_chain}
use relayer_svc.Api.{Rules, to_db_identifier, validate_identifier}
use relayer_svc.Api.Handlers.{submit_withdrawal, submit_identified, submit_deposit}
use relayer_svc.Api.Submission.{asked, respond}

-- The submission is handed to the broadcaster: its identifier is valid, and the core answers with a
-- deposit that is open and whose withdrawal chain is supported.
abbrev pub IsHandedOver : Rules → Environment → Config → Option DepositIdentifier → Shared → Type 0
IsHandedOver rules env config id s =
    (validate_identifier rules id ≡ true)
    × ((i : DepositIdentifier) × (id ≡ some i)
        × ((d : Deposit) × ((get_deposit env (to_db_identifier i) s.service.world).0 ≡ ok d)
            × (supports_chain config.clients d.withdrawal_chain_id ≡ true)
            × (d.withdrawal_tx_hash ≡ none)))

-- What can happen to the shared broadcaster before a submission is handed over: its workers, its queues,
-- the cache and the world outside change in any way, or a submission comes that is not handed over.
pub data SharedStep (rules : Rules) (env : Environment) (config : Config) (s : Shared)
    : Shared → Type 0 where
  proceeds : (t : Service) → SharedStep rules env config s (record s { service = t })
  submits :
      (id : Option DepositIdentifier)
      → (IsHandedOver rules env config id s → ⊥)
      → SharedStep rules env config s (submit_withdrawal rules env config id s).1

pub data SharedReaches (rules : Rules) (env : Environment) (config : Config) (s : Shared)
    : Shared → Type 0 where
  here : SharedReaches rules env config s s
  next :
      {t u : Shared}
      → SharedReaches rules env config s t
      → SharedStep rules env config t u
      → SharedReaches rules env config s u

-- Nothing but a submission that is handed over sets the limits.
limits-submit_deposit :
    (env : Environment) (config : Config) (d : Deposit) (s : Shared)
    → ((supports_chain config.clients d.withdrawal_chain_id ≡ true)
        → d.withdrawal_tx_hash ≡ none
        → ⊥)
    → (submit_deposit env config d s).1.limits ≡ s.limits
unfolding submit_deposit pure
limits-submit_deposit env config d s unhanded =
    elim (Bool-cases (supports_chain config.clients d.withdrawal_chain_id)) [
      | inr e ↦ ground (arith, e)
      | inl e ↦ elim (Option-cases d.withdrawal_tx_hash) [
        | inl q ↦ absurd (unhanded e q)
        | inr (hash, q) ↦ ground (arith, e, q)
      ]
    ]

limits-respond :
    (env : Environment) (config : Config) (r : Result Deposit) (s : Shared)
    → ((d : Deposit)
        → r ≡ ok d
        → (supports_chain config.clients d.withdrawal_chain_id ≡ true)
        → d.withdrawal_tx_hash ≡ none
        → ⊥)
    → (respond env config r s).1.limits ≡ s.limits
unfolding pure
limits-respond env config (ok d) s unhanded = limits-submit_deposit env config d s (unhanded d refl)
limits-respond env config (err e) s unhanded = refl

limits-submit_withdrawal :
    (rules : Rules) (env : Environment) (config : Config) (id : Option DepositIdentifier)
    (s : Shared)
    → (IsHandedOver rules env config id s → ⊥)
    → (submit_withdrawal rules env config id s).1.limits ≡ s.limits
unfolding submit_withdrawal submit_identified get_deposit on_world on_service ◌>>=◌ pure
limits-submit_withdrawal rules env config none s unhanded = ground arith
limits-submit_withdrawal rules env config (some i) s unhanded =
    elim (Bool-cases (validate_identifier rules (some i))) [
      | inr e ↦ ground (arith, e)
      | inl e ↦ ground (
        arith,
        e,
        limits-respond env config (get_deposit env (to_db_identifier i) s.service.world).0 (asked s)
            λ d r supported unsent. unhanded (e, (i, refl, (d, r, supported, unsent))),
      )
    ]

limits_kept :
    (rules : Rules) (env : Environment) (config : Config) {s t : Shared}
    → SharedReaches rules env config s t
    → s.limits ≡ new_limits
    → t.limits ≡ new_limits
limits_kept rules env config here e = e
limits_kept rules env config (next r (proceeds t)) e = limits_kept rules env config r e
limits_kept rules env config (next {t} r (submits id unhanded)) e =
    limits-submit_withdrawal rules env config id t unhanded ∙ limits_kept rules env config r e

-- With no attempts allowed, a deposit that has a row is refused.
refused :
    (env : Environment) (config : Config) (d r : Deposit) (s : Service)
    → config.recovery_attempts ≡ 0
    → row d.identifier s.world.deposits ≡ some r
    → ltb_ℤ r.recovery_attempts (pos 0) ≡ false
    → (e : Error) × ((broadcast_deposit env config d s).0 ≡ some e)
refused env config d r s none_left e h = elim (Option-cases (broadcast_deposit env config d s).0) [
  | inl q ↦ absurd (
      no_try (
        subst (MayTry config (admission_time env s)) e (broadcast_deposit-MayTry env config d s q)))
  | inr (x, q) ↦ (x, q)
]
  where
    no_try : MayTry config (admission_time env s) (some r) → ⊥
    no_try (status, attempts, time) = unfold to_int64 in ground (arith, none_left, h, attempts)

-- From a new broadcaster on, as long as no submission is handed over, whatever else happens, the limits
-- stay those of `New`, and the broadcaster refuses every deposit that has a row with no negative attempts,
-- and queues nothing for it: a failed deposit is not tried again.
pub refuses_until_submission :
    (rules : Rules) (env : Environment) (config : Config) (s t : Shared)
    → s.limits ≡ new_limits
    → SharedReaches rules env config s t
    → (t.limits ≡ new_limits)
      × ((d r : Deposit)
          → row d.identifier t.service.world.deposits ≡ some r
          → ltb_ℤ r.recovery_attempts (pos 0) ≡ false
          → ((e : Error) × ((broadcast_deposit_limited env config d t).0 ≡ some e))
            × ((broadcast_deposit_limited env config d t).1.service.withdrawals
                ≡ t.service.withdrawals))
unfolding broadcast_deposit_limited on_service
refuses_until_submission rules env config s t e reaches =
    let k = limits_kept rules env config reaches e in
    (
      k,
      λ d r q h.
          let (x, refusal) =
            refused env (with_limits t.limits config) d r t.service (ap (λ l. l.attempts) k) q h in
          (
            (x, refusal),
            withdrawals-broadcast_deposit env (with_limits t.limits config) d t.service x refusal,
          ),
    )
