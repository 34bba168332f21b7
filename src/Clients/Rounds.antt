-- ===== src/Clients/Rounds.antt =====
-- A round of a network worker whose chain is served by a client: what the submitter gets from it.
use relayer_svc.Base.{ℕ, ◌+◌, ◌≡◌, ◌⊎◌, true, false, some}
use relayer_svc.Types.{processing, submitting_to_core, already_withdrawn}
use relayer_svc.Db.{Deposit}
use relayer_svc.Env.{World}
use relayer_svc.Postgres.Deposits.{set_status}
use relayer_svc.Containers.Catchup.Safety.{is_unsent}
use relayer_svc.Containers.Confirmed.{Carries}
use relayer_svc.Broadcaster.{Task, broadcast_task, catch_up_task}
use relayer_svc.Clients.{ChildClient, Registry, is_processed, withdraw}
use relayer_svc.Clients.Relay.{IsRelayed}

-- The chain sent the withdrawal, and the deposit carries what it answered.
abbrev pub Sends : Registry → ChildClient → Deposit → ℕ → Deposit → Type 0
Sends r child d n d' =
    (d'.withdrawal_status ≡ submitting_to_core)
    × IsRelayed child (r.moment n) (set_status processing d)
        (withdraw child (r.moment n) (set_status processing d))
    × Carries (withdraw child (r.moment n) (set_status processing d)) d'

-- A new deposit that is reported: its chain had the withdrawal already, or sent it now.
abbrev pub NewBacked : Registry → Deposit → World → Deposit → Type 0
NewBacked r d w d' =
    (child : ChildClient) × (r.child d.withdrawal_chain_id ≡ some child)
    × (((is_processed child (r.moment w.calls) d ≡ some true)
          × (d'.withdrawal_status ≡ already_withdrawn))
        ⊎ ((is_processed child (r.moment w.calls) d ≡ some false)
            × Sends r child d (w.calls + 1 + 1) d'))

-- A deposit that was caught up and is reported: its chain sent the withdrawal now, or it was read
-- with another status than PENDING and PROCESSING.
abbrev pub OldBacked : Registry → Deposit → World → Deposit → Type 0
OldBacked r d w d' =
    ((is_unsent d.withdrawal_status ≡ true)
      × ((child : ChildClient) × (r.child d.withdrawal_chain_id ≡ some child)
          × (is_processed child (r.moment (w.calls + 1)) (set_status processing d) ≡ some false)
          × Sends r child d (w.calls + 1 + 1) d'))
    ⊎ ((is_unsent d.withdrawal_status ≡ false) × (d' ≡ d))

abbrev pub IsBacked : Registry → Task → World → Deposit → Type 0
IsBacked r (broadcast_task d) w d' = NewBacked r d w d'
IsBacked r (catch_up_task d) w d' = OldBacked r d w d'

abbrev pub task_deposit : Task → Deposit
task_deposit (broadcast_task d) = d
task_deposit (catch_up_task d) = d
