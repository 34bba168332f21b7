-- ===== src/Postgres/Rows.antt =====
-- The deposits table seen as a map from identifiers to rows, and what the statements of
-- internal/db/postgres/deposits.go do to it.
use mathlib.Core.Option
use relayer_svc.Base.{
  ◌+◌, ◌≡◌, ◌↔◌, refl, ℤ, true, Option, none, some, List, [], ◌∷◌, ◌++◌, arith, if◌then◌else◌,
  eq_iff, eqb_ℤ_iff,
}
use relayer_svc.Types.{err_db, WithdrawalStatus, pending}
use relayer_svc.Db.{DepositIdentifier, Deposit, identifier_eq}
use relayer_svc.Env.{Environment, World}
use relayer_svc.Postgres.{exec, select, update_where}
use relayer_svc.Postgres.Deposits.{
  identifier_to_predicate, update, insert, set_status, set_withdrawal_details, inserted_row,
  set_recovery_data, update_recovery_data,
}

pub identifier_eq_iff : (a b : DepositIdentifier) → (identifier_eq a b ≡ true) ↔ (a ≡ b)
unfolding identifier_eq
identifier_eq_iff a b = ground (
  arith,
  eq_iff a.tx_hash b.tx_hash,
  eqb_ℤ_iff a.tx_nonce b.tx_nonce,
  eq_iff a.chain_id b.chain_id,
)

-- The row of an identifier.
abbrev pub row : DepositIdentifier → List Deposit → Option Deposit
row id = select (identifier_to_predicate id)

-- The change leaves the primary key alone.
abbrev pub KeepsKey : (Deposit → Deposit) → Type 0
KeepsKey f = (d : Deposit) → (f d).identifier ≡ d.identifier

pub row-update_where :
    (f : Deposit → Deposit)
    → KeepsKey f
    → (id j : DepositIdentifier) (t : List Deposit)
    → row j (update_where (identifier_to_predicate id) f t)
      ≡ (if identifier_eq id j then Option.map f (row j t) else row j t)
unfolding select update_where identifier_to_predicate
row-update_where f keep id j [] = ground arith
row-update_where f keep id j (d ∷ t) = ground (
  arith,
  keep d,
  identifier_eq_iff d.identifier id,
  identifier_eq_iff d.identifier j,
  identifier_eq_iff (f d).identifier j,
  identifier_eq_iff id j,
  row-update_where f keep id j t,
)

pub row-append :
    (d : Deposit) (j : DepositIdentifier) (t : List Deposit)
    → row j (t ++ d ∷ []) ≡ elim (row j t) [
      | some r ↦ some r
      | none ↦ if identifier_eq d.identifier j then some d else none
    ]
unfolding select identifier_to_predicate
row-append d j [] = ground arith
row-append d j (r ∷ t) = ground (arith, row-append d j t)

-- A row stands under its own identifier.
pub row-identifier :
    (id : DepositIdentifier) (t : List Deposit) (d : Deposit)
    → row id t ≡ some d
    → d.identifier ≡ id
unfolding select identifier_to_predicate
row-identifier id [] d h = cc
row-identifier id (r ∷ t) d h =
    ground (arith, identifier_eq_iff r.identifier id, row-identifier id t d)

-- No two rows share a primary key.
abbrev pub HasUniqueKeys : List Deposit → Type 0
HasUniqueKeys [] = Unit {0}
HasUniqueKeys (d ∷ t) = (row d.identifier t ≡ none) × HasUniqueKeys t

pub update_where-HasUniqueKeys :
    (f : Deposit → Deposit)
    → KeepsKey f
    → (id : DepositIdentifier) (t : List Deposit) → HasUniqueKeys t
    → HasUniqueKeys (update_where (identifier_to_predicate id) f t)
unfolding update_where
update_where-HasUniqueKeys f keep id [] h = tt
update_where-HasUniqueKeys f keep id (d ∷ t) h = (
  ground (
    arith,
    keep d,
    row-update_where f keep id (f d).identifier t,
    row-update_where f keep id d.identifier t,
  ),
  update_where-HasUniqueKeys f keep id t h.1,
)

append-HasUniqueKeys :
    (d : Deposit) (t : List Deposit)
    → row d.identifier t ≡ none
    → HasUniqueKeys t
    → HasUniqueKeys (t ++ d ∷ [])
unfolding select identifier_to_predicate
append-HasUniqueKeys d [] e h = (refl, tt)
append-HasUniqueKeys d (r ∷ t) e h = (
  ground (
    arith,
    h.0,
    row-append d r.identifier t,
    identifier_eq_iff r.identifier d.identifier,
    identifier_eq_iff d.identifier r.identifier,
  ),
  append-HasUniqueKeys d t (ground arith) h.1,
)

set_recovery_data-KeepsKey :
    (attempts timestamp : ℤ) → KeepsKey (set_recovery_data attempts timestamp)
unfolding set_recovery_data
set_recovery_data-KeepsKey attempts timestamp d = refl

pub set_status-KeepsKey : (status : WithdrawalStatus) → KeepsKey (set_status status)
unfolding set_status
set_status-KeepsKey status d = refl

pub set_withdrawal_details-KeepsKey : (d : Deposit) → KeepsKey (set_withdrawal_details d)
unfolding set_withdrawal_details
set_withdrawal_details-KeepsKey d r = refl

-- An UPDATE fails with the database, and otherwise changes the one row.
module _ (env : Environment) (id : DepositIdentifier) (f : Deposit → Deposit) (w : World) where
  pub error-update : (update env id f w).0 ≡ (if env.db_fault w.calls then some err_db else none)
  unfolding update exec
  error-update = ground arith

  pub row-update :
      KeepsKey f
      → (j : DepositIdentifier)
      → row j (update env id f w).1.deposits ≡ (
          if env.db_fault w.calls
          then row j w.deposits
          else if identifier_eq id j
          then Option.map f (row j w.deposits)
          else row j w.deposits)
  unfolding update exec
  row-update keep j = ground (arith, row-update_where f keep id j w.deposits)

  pub update-HasUniqueKeys :
      KeepsKey f → HasUniqueKeys w.deposits → HasUniqueKeys (update env id f w).1.deposits
  unfolding update exec
  update-HasUniqueKeys keep h = ground (arith, h, update_where-HasUniqueKeys f keep id w.deposits h)

-- Inserting into a table with unique primary keys keeps them unique, whether the key is new or taken.
pub insert-HasUniqueKeys :
    (env : Environment) (d : Deposit) (w : World)
    → HasUniqueKeys w.deposits
    → HasUniqueKeys (insert env d w).1.deposits
unfolding insert exec inserted_row update_recovery_data
insert-HasUniqueKeys env d w h = ground (
  arith,
  h,
  append-HasUniqueKeys (inserted_row d) w.deposits,
  update-HasUniqueKeys env d.identifier (set_recovery_data d.recovery_attempts d.recovery_timestamp)
      (record w { calls = w.calls + 1 }) (set_recovery_data-KeepsKey _ _) h,
)

pub row-update_where_self :
    (f : Deposit → Deposit)
    → KeepsKey f
    → (id : DepositIdentifier) (t : List Deposit)
    → row id (update_where (identifier_to_predicate id) f t) ≡ Option.map f (row id t)
row-update_where_self f keep id t =
    ground (arith, row-update_where f keep id id t, identifier_eq_iff id id)

pub row-set_status :
    (status : WithdrawalStatus) (id : DepositIdentifier) (t : List Deposit)
    → row id (update_where (identifier_to_predicate id) (set_status status) t)
      ≡ Option.map (set_status status) (row id t)
row-set_status status = row-update_where_self (set_status status) (set_status-KeepsKey status)

pub row-set_withdrawal_details :
    (d : Deposit) (id : DepositIdentifier) (t : List Deposit)
    → row id (update_where (identifier_to_predicate id) (set_withdrawal_details d) t)
      ≡ Option.map (set_withdrawal_details d) (row id t)
row-set_withdrawal_details d =
    row-update_where_self (set_withdrawal_details d) (set_withdrawal_details-KeepsKey d)

-- The row of a deposit that had none: its columns, without a withdrawal hash and an operator.
abbrev pub new_row : Deposit → Deposit
new_row d = record {
  identifier = d.identifier;
  depositor = d.depositor;
  deposit_amount = d.deposit_amount;
  deposit_token = d.deposit_token;
  receiver = d.receiver;
  deposit_block = d.deposit_block;
  commission_amount = d.commission_amount;
  referral_id = d.referral_id;
  is_wrapped_token = d.is_wrapped_token;
  withdrawal_status = d.withdrawal_status;
  withdrawal_token = d.withdrawal_token;
  withdrawal_chain_block = d.withdrawal_chain_block;
  withdrawal_core_block = d.withdrawal_core_block;
  withdrawal_tx_hash = none;
  withdrawal_chain_id = d.withdrawal_chain_id;
  withdrawal_amount = d.withdrawal_amount;
  merkle_proof = d.merkle_proof;
  tx_data = d.tx_data;
  signature = d.signature;
  operator = "";
  recovery_attempts = d.recovery_attempts;
  recovery_timestamp = d.recovery_timestamp;
}

-- The row of a deposit that had one: PENDING again, with the recovery data of the deposit.
abbrev pub retried_row : Deposit → Deposit → Deposit
retried_row d r = record r {
  withdrawal_status = pending;
  recovery_attempts = d.recovery_attempts;
  recovery_timestamp = d.recovery_timestamp;
}

-- A successful insertion of a deposit that had no row stores its columns, without a withdrawal hash and an
-- operator. Where it had a row, that becomes PENDING, with the recovery attempts and the recovery time of
-- the deposit, and keeps its other columns. No other row changes.
pub row-insert :
    (env : Environment) (d : Deposit) (w : World) (j : DepositIdentifier)
    → (insert env d w).0 ≡ none
    → row j (insert env d w).1.deposits ≡ (
        if identifier_eq d.identifier j
        then elim (row d.identifier w.deposits) [
          | some r ↦ some (retried_row d r)
          | none ↦ some (new_row d)
        ]
        else row j w.deposits)
unfolding insert exec inserted_row set_recovery_data update_recovery_data update
row-insert env d w j h = ground (
  arith,
  identifier_eq_iff d.identifier j,
  row-append (inserted_row d) j w.deposits,
  row-update_where (set_recovery_data d.recovery_attempts d.recovery_timestamp)
      (set_recovery_data-KeepsKey _ _) d.identifier j w.deposits,
)
