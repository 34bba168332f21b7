-- ===== src/Broadcaster/Resumption/Keys.antt =====
-- The cache keys of the deposits that a restart takes up, one status after another.
use relayer_svc.Base.{
  ℕ, ◌≡◌, refl, Bool, true, false, ◌==◌, none, List, [], ◌∷◌, ◌++◌, All, All-append, arith,
}
use relayer_svc.Types.{WithdrawalStatus, status_number, pending, processing, submitting_to_core}
use relayer_svc.Db.{DepositIdentifier, Deposit}
use relayer_svc.Db.Text.{codes, id_string, text_eq_iff}
use relayer_svc.Db.Keys.{has_slash, id_string_injective}
use relayer_svc.Postgres.{select, select_all}
use relayer_svc.Postgres.Deposits.{identifier_to_predicate, has_status}
use relayer_svc.Postgres.Rows.{row, HasUniqueKeys, identifier_eq_iff}
use relayer_svc.Broadcaster.{cached}
use relayer_svc.Broadcaster.Resumption.Marks.{row-select_all}
use relayer_svc.Broadcaster.Resumption.Phases.{reads, early, unfinished, AreNew}

-- The key's texts hold no slash.
abbrev pub IsPlain : Deposit → Type 0
IsPlain d =
    (has_slash (codes d.identifier.chain_id) ≡ false)
    × (has_slash (codes d.identifier.tx_hash) ≡ false)

-- No deposit of the list has its row in the table.
abbrev AreApart : List Deposit → List Deposit → Type 0
AreApart ds t = All (λ d. row d.identifier t ≡ none) ds

AreApart-add :
    (r : Deposit) (ds t : List Deposit)
    → AreApart ds t
    → row r.identifier ds ≡ none
    → AreApart ds (r ∷ t)
unfolding select identifier_to_predicate
AreApart-add r [] t h e = tt
AreApart-add r (d ∷ ds) t h e = ground (
  arith,
  identifier_eq_iff r.identifier d.identifier,
  identifier_eq_iff d.identifier r.identifier,
  AreApart-add r ds t h.1,
)

select_all-AreApart :
    (p q : Deposit → Bool)
    → ((d : Deposit) → p d ≡ true → q d ≡ false)
    → (t : List Deposit) → HasUniqueKeys t
    → AreApart (select_all p t) (select_all q t)
unfolding select_all
select_all-AreApart p q apart [] h = tt
select_all-AreApart p q apart (r ∷ t) h = ground (
  arith,
  apart r,
  row-select_all q r.identifier t h.0,
  AreApart-add r (select_all p t) (select_all q t) (select_all-AreApart p q apart t h.1)
      (row-select_all p r.identifier t h.0),
  select_all-AreApart p q apart t h.1,
)

select_all-HasUniqueKeys :
    (p : Deposit → Bool) (t : List Deposit) → HasUniqueKeys t → HasUniqueKeys (select_all p t)
unfolding select_all
select_all-HasUniqueKeys p [] h = tt
select_all-HasUniqueKeys p (r ∷ t) h =
    ground (arith, row-select_all p r.identifier t h.0, select_all-HasUniqueKeys p t h.1)

row-append_none :
    (id : DepositIdentifier) (ds t : List Deposit)
    → row id ds ≡ none
    → row id t ≡ none
    → row id (ds ++ t) ≡ none
unfolding select identifier_to_predicate
row-append_none id [] t e f = f
row-append_none id (d ∷ ds) t e f = ground (arith, row-append_none id ds t)

append-HasUniqueKeys :
    (ds t : List Deposit)
    → HasUniqueKeys ds
    → HasUniqueKeys t
    → AreApart ds t
    → HasUniqueKeys (ds ++ t)
append-HasUniqueKeys [] t h k apart = k
append-HasUniqueKeys (d ∷ ds) t h k apart =
    (row-append_none d.identifier ds t h.0 apart.0, append-HasUniqueKeys ds t h.1 k apart.1)

-- The keys of other deposits than the given one are not its key.
fresh_after :
    (d : Deposit) (ds : List Deposit) (cache : List (List ℕ))
    → IsPlain d
    → All IsPlain ds
    → row d.identifier ds ≡ none
    → All (λ e. cached (id_string e.identifier) cache ≡ false) ds
    → All (λ e. cached (id_string e.identifier) (id_string d.identifier ∷ cache) ≡ false) ds
unfolding cached select identifier_to_predicate
fresh_after d [] cache plain plains e fresh = tt
fresh_after d (r ∷ ds) cache plain plains e fresh = ground (
  arith,
  identifier_eq_iff r.identifier d.identifier,
  text_eq_iff (id_string d.identifier) (id_string r.identifier),
  id_string_injective d.identifier r.identifier plain.0 plain.1 plains.0.0 plains.0.1,
  fresh_after d ds cache plain plains.1,
)

AreNew-fresh :
    (ds : List Deposit) (cache : List (List ℕ))
    → HasUniqueKeys ds
    → All IsPlain ds
    → All (λ e. cached (id_string e.identifier) cache ≡ false) ds
    → AreNew ds cache
AreNew-fresh [] cache keys plains fresh = tt
AreNew-fresh (d ∷ ds) cache keys plains fresh = (
  fresh.0,
  AreNew-fresh ds (id_string d.identifier ∷ cache) keys.1 plains.1
      (fresh_after d ds cache plains.0 plains.1 keys.0 fresh.1),
)

nothing_cached : (ds : List Deposit) → All (λ e. cached (id_string e.identifier) [] ≡ false) ds
unfolding cached
nothing_cached [] = tt
nothing_cached (d ∷ ds) = (refl, nothing_cached ds)

-- The rows of two statuses have different keys.
reads-AreApart :
    (p q : WithdrawalStatus)
    → (status_number p == status_number q) ≡ false
    → (t : List Deposit) → HasUniqueKeys t
    → AreApart (reads p t) (reads q t)
unfolding has_status
reads-AreApart p q other =
    select_all-AreApart (has_status p) (has_status q) λ d e. ground (arith, e, other)

unfinished-HasUniqueKeys : (t : List Deposit) → HasUniqueKeys t → HasUniqueKeys (unfinished t)
unfolding status_number
unfinished-HasUniqueKeys t keys =
    let unique = λ (p : WithdrawalStatus). select_all-HasUniqueKeys (has_status p) t keys in
    append-HasUniqueKeys (early t) (reads submitting_to_core t)
      (append-HasUniqueKeys (reads pending t) (reads processing t) (unique pending)
        (unique processing) (reads-AreApart pending processing refl t keys))
      (unique submitting_to_core)
      (All-append _ (reads pending t) (reads processing t)
        (reads-AreApart pending submitting_to_core refl t keys)
        (reads-AreApart processing submitting_to_core refl t keys))

pub unfinished-AreNew :
    (t : List Deposit) → HasUniqueKeys t → All IsPlain (unfinished t) → AreNew (unfinished t) []
unfinished-AreNew t keys plains =
    AreNew-fresh (unfinished t) [] (unfinished-HasUniqueKeys t keys) plains
      (nothing_cached (unfinished t))
