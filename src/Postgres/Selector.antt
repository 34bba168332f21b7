-- ===== src/Postgres/Selector.antt =====
-- The selector of a `depositsQ` of internal/db/postgres/deposits.go: what its filters add to
-- `SELECT * FROM deposits` stays for every later query of the same object. `Transaction` of the three
-- tables is here too.
use relayer_svc.Base.{ℕ, String, Option, none, some, List, [], ◌∷◌, ◌++◌, State, case_option}
use relayer_svc.Types.{Error, err_db, WithdrawalStatus, Result, ok, err, case_result}
use relayer_svc.Db.{Deposit}
use relayer_svc.Env.{Environment, World}
use relayer_svc.Postgres.{query}

-- A condition of the WHERE clause, on a column of the table.
pub data Condition : Type 0 where
  id_is : String → Condition
  status_is : WithdrawalStatus → Condition

-- `pgdb.OffsetPageParams`: a number and a limit.
pub record Selector : Type 0 where
  pub conditions : List Condition
  pub page : Option (ℕ × ℕ)

-- `NewDepositsQ` and `New`.
abbrev pub new_deposits_q : Selector
new_deposits_q = record { conditions = []; page = none }

-- `FilterById`
unfoldable pub filter_by_id : String → Selector → Selector
filter_by_id id q = record q { conditions = q.conditions ++ id_is id ∷ [] }

-- `FilterByStatus`
unfoldable pub filter_by_status : WithdrawalStatus → Selector → Selector
filter_by_status status q = record q { conditions = q.conditions ++ status_is status ∷ [] }

-- `Page`, which puts another page in the place of an earlier one.
unfoldable pub set_page : ℕ → ℕ → Selector → Selector
set_page number limit q = record q { page = some (number, limit) }

-- What the database answers to a selector on a table: its rows, or an error.
abbrev pub Engine : Type 0
Engine = Selector → List Deposit → Option (List Deposit)

-- The first row, if there is one.
abbrev pub head_of : List Deposit → Option Deposit
head_of [] = none
head_of (d ∷ ds) = some d

-- `GetDefault`
unfoldable pub get_default :
    Engine → Environment → Selector → World → Result (Option Deposit) × World
get_default engine env q w =
    let (r, w') = query env (λ v. engine q v.deposits) w in
    (case_result r (λ rows. case_option rows (err err_db) λ ds. ok (head_of ds)) err, w')

-- `Transaction`: an error of the function puts the tables back.
unfoldable pub transaction : State World (Option Error) → State World (Option Error)
transaction f w =
    let (e, w') = f w in
    case_option e (none, w')
      λ x. (
        some x,
        record w' { deposits = w.deposits; epochs = w.epochs; latest_block = w.latest_block },
      )
