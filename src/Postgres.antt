-- ===== src/Postgres.antt =====
-- internal/db/postgres: the tables and the statements on them.
-- A statement is atomic: `pgdb` reports an error and leaves the rows alone, or carries it out.
pub mod Deposits
pub mod Signatures
pub mod Epochs
pub mod Blocks
pub mod Rows
pub mod Selector
use relayer_svc.Base.{
  ℕ, ◌+◌, Bool, true, false, Option, none, some, List, [], ◌∷◌, if◌then◌else◌, State, ◌≡◌, arith,
  refl,
}
use relayer_svc.Types.{Error, err_db, Result, ok, err}
use relayer_svc.Env.{Environment, World}

-- `db.Exec`.
unfoldable pub exec : Environment → (World → World) → State World (Option Error)
exec env stmt w =
    let w' = record w { calls = w.calls + 1 } in
    if env.db_fault w.calls then (some err_db, w') else (none, stmt w')

-- `db.Get` and `db.Select`.
unfoldable pub query {ℓ} : {A : Type ℓ} → Environment → (World → A) → World → Result A × World
query env q w =
    let w' = record w { calls = w.calls + 1 } in
    if env.db_fault w.calls then (err err_db, w') else (ok (q w), w')

module _ {R : Type 0} where
  -- The first row that the WHERE clause picks.
  unfoldable pub select : (R → Bool) → List R → Option R
  select p [] = none
  select p (r ∷ rs) = if p r then some r else select p rs

  unfoldable pub select_all : (R → Bool) → List R → List R
  select_all p [] = []
  select_all p (r ∷ rs) = let rest = select_all p rs in if p r then r ∷ rest else rest

  unfoldable pub update_where : (R → Bool) → (R → R) → List R → List R
  update_where p f [] = []
  update_where p f (r ∷ rs) = (if p r then f r else r) ∷ update_where p f rs
