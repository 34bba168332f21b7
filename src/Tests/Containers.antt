-- ===== src/Tests/Containers.antt =====
-- Runs of the containers and of the statements at one deposit.
use relayer_svc.Base.{◌≡◌, ◌≢◌, refl, some, ◌∷◌, [], ap, arith}
use relayer_svc.Types.{submitting_to_core, processing}
use relayer_svc.Db.{DepositIdentifier, Deposit, identifier_eq}
use relayer_svc.Postgres.{exec, select}
use relayer_svc.Postgres.Rows.{row, new_row, row-insert}
use relayer_svc.Postgres.Deposits.{insert, inserted_row, set_status, identifier_to_predicate}
use relayer_svc.Containers.Broadcast
use relayer_svc.Containers.Broadcast.Outcomes.{Reports, run-Reports, sent-run}
use relayer_svc.Containers.Broadcast.Isolation.{row-run}
use relayer_svc.Containers.Catchup
use relayer_svc.Containers.Catchup.Safety.{sent-catchup, row-catchup}
use relayer_svc.Tests.{calm, first, second, first_id, one_row}

ids_differ : first.identifier ≢ second.identifier
ids_differ e = ground (arith, ap (λ (id : DepositIdentifier). id.tx_nonce) e)

run-Reports_example : Reports first_id first submitting_to_core (Broadcast.run calm first one_row)
unfolding select identifier_to_predicate identifier_eq
run-Reports_example = run-Reports calm (λ n. refl) first first one_row refl

sent-run_example : (Broadcast.run calm first one_row).1.sent ≡ set_status processing first ∷ []
sent-run_example = sent-run calm first one_row

row-run_example :
    row second.identifier (Broadcast.run calm first one_row).1.deposits
    ≡ row second.identifier one_row.deposits
row-run_example = row-run calm first one_row second.identifier ids_differ

-- The deposit was read as PROCESSING when the service stopped.
abbrev stopped : Deposit
stopped = record first { withdrawal_status = processing }

sent-catchup_example :
    (Catchup.run calm stopped one_row).1.sent ≡ set_status processing stopped ∷ []
sent-catchup_example = sent-catchup calm stopped one_row

row-catchup_example :
    row second.identifier (Catchup.run calm stopped one_row).1.deposits
    ≡ row second.identifier one_row.deposits
row-catchup_example = row-catchup calm stopped one_row second.identifier ids_differ

row-insert_example :
    row second.identifier (insert calm second one_row).1.deposits ≡ some (new_row second)
unfolding insert inserted_row exec select identifier_to_predicate identifier_eq
row-insert_example = row-insert calm second one_row second.identifier refl
