-- ===== src/Containers/Returned.antt =====
-- What the deposit containers return.
use relayer_svc.Base.{
  ◌+◌, ◌≡◌, refl, Bool, true, false, Option, none, some, arith, ◌>>=◌, case_option, if◌then◌else◌,
}
use relayer_svc.Types.{Error}
use relayer_svc.Db.{DepositIdentifier, Deposit}
use relayer_svc.Env.{Environment, World}
use relayer_svc.Postgres.Deposits.{set_status}
use relayer_svc.Containers.{Outcome, check_processed, execute_withdrawal, or_default_hash}
use relayer_svc.Containers.Broadcast
use relayer_svc.Containers.Catchup

-- The deposit, if there is one, keeps the identifier; without one there is an error.
abbrev pub Answers : DepositIdentifier → Outcome → Type 0
Answers id (none, e) = (x : Error) × (e ≡ some x)
Answers id (some d, e) = d.identifier ≡ id

start-Answers :
    (env : Environment) (d : Deposit) (w : World) → Answers d.identifier (Broadcast.start env d w).0
unfolding Broadcast.start Broadcast.process Broadcast.report_failure Broadcast.report_unstored
    Broadcast.submit Broadcast.store_details set_status execute_withdrawal ◌>>=◌ or_default_hash
start-Answers env d w = ground arith

pub broadcast-Answers :
    (env : Environment) (d : Deposit) (w : World) → Answers d.identifier (Broadcast.run env d w).0
unfolding Broadcast.run Broadcast.reject Broadcast.report_withdrawn set_status check_processed ◌>>=◌
broadcast-Answers env d w = go (env.is_processed w.calls d)
  where
    go :
        (answer : Option Bool)
        → Answers d.identifier
            (case_option answer
              (Broadcast.reject env d)
              (λ p. if p then Broadcast.report_withdrawn env d else Broadcast.start env d)
              (record w { calls = w.calls + 1 })).0
    go none = refl
    go (some true) = refl
    go (some false) = start-Answers env d _

pub catchup-Answers :
    (env : Environment) (d : Deposit) (w : World) → Answers d.identifier (Catchup.run env d w).0
unfolding Catchup.run Broadcast.reject Broadcast.report_failure Broadcast.report_unstored
    Catchup.submit Catchup.store_details Catchup.withdraw_again Catchup.check_and_withdraw
    Catchup.process_withdraw Catchup.close_submitted Catchup.resume_submission
    Catchup.skip_processed ◌>>=◌ check_processed execute_withdrawal or_default_hash set_status
catchup-Answers env d w = ground arith
