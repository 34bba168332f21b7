-- ===== src/Tests/Served.antt =====
-- The broadcaster with an EVM client behind its chain.
use relayer_svc.Base.{◌≡◌, refl, some, List, [], ◌∷◌, ◌>>=◌}
use relayer_svc.Types.{epoch_pending, epoch_processed}
use relayer_svc.Db.{Epoch, empty_epoch, epoch_identifier}
use relayer_svc.Env.{World}
use relayer_svc.Attempt
use relayer_svc.Attempt.{or_raise}
use relayer_svc.Chain.{Bytes, set_string, set_string_codes, read_number}
use relayer_svc.Observer.Numbers.{read_digits}
use relayer_svc.Evm.{prepare_tx_opts, get_block_with_retry}
use relayer_svc.Evm.Withdraw.{transact}
use relayer_svc.Containers.{execute_update_signers}
use relayer_svc.Outbox.{ask, ask_again, with_retry}
use relayer_svc.Postgres.Signatures.{set_status, update_status, epoch_identifier_to_predicate}
use relayer_svc.Postgres.{select, update_where, exec}
use relayer_svc.Postgres.Epochs.{epoch_row}
use relayer_svc.Containers.Signers.{run}
use relayer_svc.Evm.Signers.{child_update_signers}
use relayer_svc.Clients.{Registry, Moment, evm_child, with_clients}
use relayer_svc.Clients.Epochs.{WasMined, epoch_row-WasMined}
use relayer_svc.Tests.{calm, empty_world}
use relayer_svc.Tests.Evm.{client}

abbrev now : Moment
now = record { calls = 0; signer = 0 }

abbrev operators : List Bytes
operators = (5 ∷ []) ∷ []

abbrev registry : Registry
registry = record { child = λ id. some (evm_child client operators); moment = λ n. now }

abbrev epoch : Epoch
epoch = record empty_epoch { chain_id = "eth"; nonce = "1"; status = epoch_pending }

abbrev waiting : World
waiting = record empty_world { epochs = epoch ∷ [] }

before : epoch_row (epoch_identifier epoch) waiting.epochs ≡ some epoch
unfolding select epoch_identifier_to_predicate
before = refl

after :
    epoch_row (epoch_identifier epoch) (run (with_clients registry calm) epoch waiting).1.epochs
    ≡ some (set_status epoch_processed epoch)
unfolding run select epoch_identifier_to_predicate execute_update_signers with_clients update_where
    update_status exec ◌>>=◌ set_status child_update_signers set_string set_string_codes read_number
    read_digits prepare_tx_opts get_block_with_retry transact Attempt.◌>>=◌ Attempt.pure or_raise
    ask ask_again with_retry
after = refl

epoch_row-WasMined_example : WasMined client operators now epoch
unfolding set_status
epoch_row-WasMined_example =
    epoch_row-WasMined registry calm epoch epoch (set_status epoch_processed epoch) waiting client
      operators refl before refl after refl
