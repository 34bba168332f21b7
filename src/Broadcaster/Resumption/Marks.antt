-- ===== src/Broadcaster/Resumption/Marks.antt =====
-- The deposits table once the rows of a status were set back to PENDING one after another.

use relayer_svc.Base.{◌≡◌, refl, Bool, false, none, List, [], ◌∷◌, map, arith, if◌then◌else◌, ◌==◌}
use relayer_svc.Types.{WithdrawalStatus, pending, status_number}
use relayer_svc.Db.{DepositIdentifier, Deposit}
use relayer_svc.Postgres.{select, select_all, update_where}
use relayer_svc.Postgres.Deposits.{has_status, set_status, identifier_to_predicate}
use relayer_svc.Postgres.Rows.{row, HasUniqueKeys, identifier_eq_iff}

-- The row of the identifier set back to PENDING.
abbrev pub mark : DepositIdentifier → List Deposit → List Deposit
mark id = update_where (identifier_to_predicate id) (set_status pending)

unfoldable pub mark_all : List Deposit → List Deposit → List Deposit
mark_all [] t = t
mark_all (d ∷ ds) t = mark_all ds (mark d.identifier t)

-- The table in which the rows that the test picks, and no others, are PENDING.
abbrev pub marked : (Deposit → Bool) → List Deposit → List Deposit
marked p = map λ r. if p r then set_status pending r else r

mark-absent : (id : DepositIdentifier) (t : List Deposit) → row id t ≡ none → mark id t ≡ t
unfolding update_where select identifier_to_predicate
mark-absent id [] e = refl
mark-absent id (r ∷ t) e = ground (arith, mark-absent id t)

mark_all-apart :
    (x : Deposit) (ds t : List Deposit)
    → row x.identifier ds ≡ none
    → mark_all ds (x ∷ t) ≡ x ∷ mark_all ds t
unfolding mark_all update_where select identifier_to_predicate
mark_all-apart x [] t e = refl
mark_all-apart x (d ∷ ds) t e = ground (
  arith,
  identifier_eq_iff d.identifier x.identifier,
  identifier_eq_iff x.identifier d.identifier,
  mark_all-apart x ds (mark d.identifier t),
)

pub row-select_all :
    (p : Deposit → Bool) (id : DepositIdentifier) (t : List Deposit)
    → row id t ≡ none
    → row id (select_all p t) ≡ none
unfolding select select_all identifier_to_predicate
row-select_all p id [] e = refl
row-select_all p id (r ∷ t) e = ground (arith, row-select_all p id t)

pub mark_all-select_all :
    (p : Deposit → Bool) (t : List Deposit)
    → HasUniqueKeys t
    → mark_all (select_all p t) t ≡ marked p t
unfolding mark_all update_where select_all identifier_to_predicate set_status
mark_all-select_all p [] h = refl
mark_all-select_all p (r ∷ t) h = ground (
  arith,
  identifier_eq_iff r.identifier r.identifier,
  mark-absent r.identifier t h.0,
  mark_all-apart (set_status pending r) (select_all p t) t (row-select_all p r.identifier t h.0),
  mark_all-apart r (select_all p t) t (row-select_all p r.identifier t h.0),
  mark_all-select_all p t h.1,
)

-- Marking one status leaves the rows of another.
pub select_all-marked :
    (q status : WithdrawalStatus) (t : List Deposit)
    → (status_number q == status_number status) ≡ false
    → (status_number pending == status_number status) ≡ false
    → select_all (has_status status) (marked (has_status q) t) ≡ select_all (has_status status) t
unfolding select_all has_status set_status status_number
select_all-marked q status [] other unmarked = refl
select_all-marked q status (r ∷ t) other unmarked =
    ground (arith, select_all-marked q status t other unmarked)

row-marked :
    (p : Deposit → Bool) (id : DepositIdentifier) (t : List Deposit)
    → row id t ≡ none
    → row id (marked p t) ≡ none
unfolding select identifier_to_predicate set_status
row-marked p id [] e = refl
row-marked p id (r ∷ t) e = ground (arith, row-marked p id t)

pub marked-HasUniqueKeys :
    (p : Deposit → Bool) (t : List Deposit) → HasUniqueKeys t → HasUniqueKeys (marked p t)
unfolding set_status
marked-HasUniqueKeys p [] h = tt
marked-HasUniqueKeys p (r ∷ t) h =
    ground (arith, row-marked p r.identifier t h.0, marked-HasUniqueKeys p t h.1)
