-- ===== src/Postgres/Deposits.antt =====
-- internal/db/postgres/deposits.go. The table's primary key is (tx_hash, tx_nonce, chain_id).
use relayer_svc.Base.{ℤ, String, Bool, Option, none, some, List, [], ◌∷◌, ◌++◌, State}
use relayer_svc.Types.{Error, Result, WithdrawalStatus, pending, processed, status_number}
use relayer_svc.Base.{◌==◌}
use relayer_svc.Db.{DepositIdentifier, Deposit, identifier_eq}
use relayer_svc.Env.{Environment, World}
use relayer_svc.Postgres.{exec, query, select, select_all, update_where}

-- `identifierToPredicate`, the WHERE clause of every statement on one deposit.
unfoldable pub identifier_to_predicate : DepositIdentifier → Deposit → Bool
identifier_to_predicate id d = identifier_eq d.identifier id

unfoldable pub get : Environment → DepositIdentifier → World → Result (Option Deposit) × World
get env id = query env (λ w. select (identifier_to_predicate id) w.deposits)

unfoldable pub has_status : WithdrawalStatus → Deposit → Bool
has_status status d = status_number d.withdrawal_status == status_number status

unfoldable pub get_with_status :
    Environment → WithdrawalStatus → World → Result (List Deposit) × World
unfolding has_status
get_with_status env status = query env (λ w. select_all (has_status status) w.deposits)

-- An UPDATE of the deposit's row.
unfoldable pub update :
    Environment → DepositIdentifier → (Deposit → Deposit) → State World (Option Error)
update env id f =
    exec env λ w. record w { deposits = update_where (identifier_to_predicate id) f w.deposits }

unfoldable pub set_recovery_data : ℤ → ℤ → Deposit → Deposit
set_recovery_data attempts timestamp d = record d {
  recovery_attempts = attempts;
  recovery_timestamp = timestamp;
  withdrawal_status = pending;
}

unfoldable pub update_recovery_data :
    Environment → DepositIdentifier → ℤ → ℤ → State World (Option Error)
update_recovery_data env id attempts timestamp =
    update env id (set_recovery_data attempts timestamp)

-- The columns that INSERT sets; the withdrawal hash and the operator keep the table's defaults.
unfoldable pub inserted_row : Deposit → Deposit
inserted_row d = record d { withdrawal_tx_hash = none; operator = "" }

-- A duplicate key turns the insertion into an update of the recovery data.
unfoldable pub insert : Environment → Deposit → State World (Option Error)
insert env d w =
    let (fault, w') = exec env (λ v. v) w in
    elim fault [
      | some e ↦ (some e, w')
      | none ↦ elim (select (identifier_to_predicate d.identifier) w.deposits) [
        | some row ↦
            update_recovery_data env d.identifier d.recovery_attempts d.recovery_timestamp w'
        | none ↦ (none, record w' { deposits = w.deposits ++ inserted_row d ∷ [] })
      ]
    ]

unfoldable pub set_status : WithdrawalStatus → Deposit → Deposit
set_status status d = record d { withdrawal_status = status }

unfoldable pub update_status :
    Environment → DepositIdentifier → WithdrawalStatus → State World (Option Error)
update_status env id status = update env id (set_status status)

unfoldable pub set_withdrawal_details : Deposit → Deposit → Deposit
set_withdrawal_details deposit d = record d {
  withdrawal_tx_hash = deposit.withdrawal_tx_hash;
  withdrawal_chain_block = deposit.withdrawal_chain_block;
  withdrawal_core_block = deposit.withdrawal_core_block;
  withdrawal_status = deposit.withdrawal_status;
  operator = deposit.operator;
}

unfoldable pub update_withdrawal_details : Environment → Deposit → State World (Option Error)
update_withdrawal_details env d = update env d.identifier (set_withdrawal_details d)

unfoldable pub set_withdrawal_tx : String → Deposit → Deposit
set_withdrawal_tx hash d = record d {
  withdrawal_tx_hash = some hash;
  withdrawal_status = processed;
}

unfoldable pub update_withdrawal_tx :
    Environment → DepositIdentifier → String → State World (Option Error)
update_withdrawal_tx env id hash = update env id (set_withdrawal_tx hash)

unfoldable pub set_signature : String → Deposit → Deposit
set_signature sig d = record d { signature = sig; withdrawal_status = processed }

unfoldable pub update_signature :
    Environment → DepositIdentifier → String → State World (Option Error)
update_signature env id sig = update env id (set_signature sig)

unfoldable pub set_withdrawal_core_block : ℤ → Deposit → Deposit
set_withdrawal_core_block i d = record d { withdrawal_core_block = i }

unfoldable pub update_withdrawal_core_block :
    Environment → DepositIdentifier → ℤ → State World (Option Error)
update_withdrawal_core_block env id i = update env id (set_withdrawal_core_block i)

unfoldable pub set_withdrawal_chain_block : ℤ → Deposit → Deposit
set_withdrawal_chain_block i d = record d { withdrawal_chain_block = i }

unfoldable pub update_withdrawal_chain_block :
    Environment → DepositIdentifier → ℤ → State World (Option Error)
update_withdrawal_chain_block env id i = update env id (set_withdrawal_chain_block i)

unfoldable pub set_recovery_details : ℤ → ℤ → Deposit → Deposit
set_recovery_details attempts timestamp d = record d {
  recovery_attempts = attempts;
  recovery_timestamp = timestamp;
}

unfoldable pub update_recovery_details :
    Environment → DepositIdentifier → ℤ → ℤ → State World (Option Error)
update_recovery_details env id attempts timestamp =
    update env id (set_recovery_details attempts timestamp)
