-- ===== src/Postgres/Signatures.antt =====
-- internal/db/postgres/signatures.go. The table's primary key is (chain_id, nonce), by the migration
-- 03_signatures; the WHERE clause asks for the epoch's id too.
use relayer_svc.Base.{Bool, Option, none, some, List, [], ◌∷◌, ◌++◌, ◌&&◌, ◌==◌, str_eq, State}
use relayer_svc.Types.{
  Error, err_db, Result, EpochStatus, epoch_failed, epoch_processed, epoch_pending,
}
use relayer_svc.Db.{Epoch, SignatureIdentifier}
use relayer_svc.Env.{Environment, World}
use relayer_svc.Postgres.{exec, query, select, select_all, update_where}

unfoldable pub epoch_identifier_to_predicate : SignatureIdentifier → Epoch → Bool
epoch_identifier_to_predicate id e =
    e.id == id.id && str_eq e.chain_id id.chain_id && str_eq e.nonce id.nonce

unfoldable pub same_primary_key : Epoch → Epoch → Bool
same_primary_key a b = str_eq a.chain_id b.chain_id && str_eq a.nonce b.nonce

-- A duplicate primary key is an error here.
unfoldable pub insert : Environment → Epoch → State World (Option Error)
insert env epoch w =
    let (fault, w') = exec env (λ v. v) w in
    elim fault [
      | some e ↦ (some e, w')
      | none ↦ elim (select (same_primary_key epoch) w.epochs) [
        | some row ↦ (some err_db, w')
        | none ↦ (none, record w' { epochs = w.epochs ++ epoch ∷ [] })
      ]
    ]

unfoldable pub get : Environment → SignatureIdentifier → World → Result (Option Epoch) × World
get env id = query env (λ w. select (epoch_identifier_to_predicate id) w.epochs)

unfoldable pub epoch_status_eq : EpochStatus → EpochStatus → Bool
epoch_status_eq epoch_failed epoch_failed = Bool.true
epoch_status_eq epoch_processed epoch_processed = Bool.true
epoch_status_eq epoch_pending epoch_pending = Bool.true
epoch_status_eq _ _ = Bool.false

unfoldable pub get_with_status : Environment → EpochStatus → World → Result (List Epoch) × World
get_with_status env status =
    query env (λ w. select_all (λ e. epoch_status_eq e.status status) w.epochs)

unfoldable pub set_status : EpochStatus → Epoch → Epoch
set_status status e = record e { status = status }

unfoldable pub update_status :
    Environment → SignatureIdentifier → EpochStatus → State World (Option Error)
update_status env id status = exec env λ w. record w {
  epochs = update_where (epoch_identifier_to_predicate id) (set_status status) w.epochs;
}
