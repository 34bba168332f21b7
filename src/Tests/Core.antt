-- ===== src/Tests/Core.antt =====
-- The submitter, the connector and the repository at small inputs.
use mathlib.Core.Option
use relayer_svc.Base.{◌≡◌, refl, true, false, ◌∷◌, [], List, arith}
use relayer_svc.Types.{submitting_to_core}
use relayer_svc.Db.{Deposit}
use relayer_svc.Connector.{tx_to_deposit, to_transaction, nil_or_not_empty}
use relayer_svc.Connector.Update.{Message}
use relayer_svc.Connector.RoundTrip.{as_reported, tx_to_deposit-to_transaction}
use relayer_svc.Containers.Catchup.{is_some}
use relayer_svc.Broadcaster.Submitter.{Pool, flush}
use relayer_svc.Broadcaster.Batches.{identifiers}
use relayer_svc.Broadcaster.Blocked.{Reported, has_nil, flush_blocked}
use relayer_svc.Tests.{reporting, first, first_id, one_row, config, once}

abbrev submitting : Deposit
submitting = record first { withdrawal_status = submitting_to_core }

abbrev batch : Pool
batch = (submitting ∷ [], one_row)

refuses : (ms : List Message) → has_nil ms ≡ true → reporting.set_msgs ms ≡ false
refuses ms h = rw h

all-Reported : Reported reporting (λ id. true)
unfolding to_transaction nil_or_not_empty is_some
all-Reported = record { is_reported = λ n id e. refl; refuses_nil = refuses }

flush_blocked_example :
    identifiers (flush reporting config once (first ∷ [], one_row)).0 ≡ first_id ∷ []
flush_blocked_example =
    flush_blocked reporting (λ id. true) all-Reported config once (first ∷ [], one_row) refl

tx_to_deposit-to_transaction_example : tx_to_deposit (to_transaction first) ≡ as_reported first
tx_to_deposit-to_transaction_example =
    tx_to_deposit-to_transaction first (omega arith) (omega arith) (omega arith)
