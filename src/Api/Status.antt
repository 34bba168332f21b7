-- ===== src/Api/Status.antt =====
-- What the two queries of the API answer.
use relayer_svc.Base.{
  String, ℕ, pos, ◌-◌, ◌≤◌, ◌<◌, ◌^◌, ◌≡◌, ◌≢◌, subst, Option-cases, Bool-cases, refl, inl, inr,
  Bool, true, false, some, List, [], ◌∷◌, All, arith, to_int64, to_uint64, if◌then◌else◌,
}
use relayer_svc.Types.{WithdrawalStatus, status_number}
use relayer_svc.Db.{DepositIdentifier, Deposit}
use relayer_svc.Env.{Environment, World}
use relayer_svc.Postgres.{select, select_all, query}
use relayer_svc.Postgres.Deposits.{identifier_to_predicate, get, get_with_status, has_status}
use relayer_svc.Postgres.Rows.{row, identifier_eq_iff}
use relayer_svc.Broadcaster.{Config}
use relayer_svc.Api.{
  Rules, validate_identifier, CheckWithdrawalResponse, to_int32, to_status_response,
  to_db_identifier, to_withdrawal_by_status_response,
}
use relayer_svc.Api.Handlers.{
  sub_int64, with_attempts_left, check_withdrawal, check_identified, status_of, limit_of, page_of,
  page_column, Pages, GetWithdrawalsByStatusRequest, get_withdrawals_by_status,
}

identifier-row :
    (id : DepositIdentifier) (t : List Deposit) (r : Deposit)
    → row id t ≡ some r
    → r.identifier ≡ id
unfolding select identifier_to_predicate
identifier-row id [] r e = ground (arith, e)
identifier-row id (d ∷ t) r e =
    ground (arith, e, identifier_eq_iff d.identifier id, identifier-row id t r)

attempts_left :
    (max n : ℕ)
    → n ≤ max
    → max < 2 ^ 31
    → to_int32 (sub_int64 (to_int64 max) (pos n)) ≡ pos (max - n)
unfolding to_int32 sub_int64 to_int64 to_uint64
attempts_left max n h k = ground arith

-- With a working database, the query for a deposit whose identifier is valid answers with the deposit's
-- identifier, the status of its row and the attempts that are left of the configured ones, if the row's
-- attempts are at most those, and those are below 2^31.
pub check_withdrawal-row :
    (rules : Rules) (env : Environment) (config : Config) (id : DepositIdentifier) (w : World)
    (r : Deposit) (n : ℕ)
    → validate_identifier rules (some id) ≡ true
    → env.db_fault w.calls ≡ false
    → row id w.deposits ≡ some r
    → r.recovery_attempts ≡ pos n
    → n ≤ config.recovery_attempts
    → config.recovery_attempts < 2 ^ 31
    → (answer : CheckWithdrawalResponse) × ((check_withdrawal rules env config (some id) w).0
        ≡ inl answer)
      × (answer.deposit_identifier ≡ id)
      × (answer.withdrawal_status ≡ r.withdrawal_status)
      × (answer.recovery.attempts ≡ pos (config.recovery_attempts - n))
unfolding check_withdrawal check_identified get query to_db_identifier with_attempts_left
    to_status_response
check_withdrawal-row rules env config id w r n valid live found counted enough small = (
  to_status_response (with_attempts_left config r),
  ground arith,
  identifier-row id w.deposits r found,
  refl,
  rw counted (attempts_left config.recovery_attempts n enough small),
)

-- The status that a number stands for has that number.
status_number-status_of :
    (n : ℕ) (status : WithdrawalStatus) → status_of (pos n) ≡ some status → status_number status ≡ n
unfolding status_of status_number
status_number-status_of n status h = ground arith

-- Every answer has the status with this number.
abbrev AllHaveStatus : ℕ → List CheckWithdrawalResponse → Type 0
AllHaveStatus n = All λ r. status_number r.withdrawal_status ≡ n

All-keep :
    (P : Deposit → Type 0) (b : Bool) (d : Deposit) (ds : List Deposit)
    → (b ≡ true → P d)
    → All P ds
    → All P (if b then d ∷ ds else ds)
All-keep P true d ds p h = (p refl, h)
All-keep P false d ds p h = h

All-select_all :
    (status : WithdrawalStatus) (ds : List Deposit)
    → All
        (λ d. status_number d.withdrawal_status ≡ status_number status)
        (select_all (has_status status) ds)
unfolding select_all has_status
All-select_all status [] = tt
All-select_all status (d ∷ ds) =
    All-keep _ (has_status status d) d (select_all (has_status status) ds) (λ e. ground (arith, e))
      (All-select_all status ds)

All-responses :
    (n : ℕ) (ds : List Deposit)
    → All (λ d. status_number d.withdrawal_status ≡ n) ds
    → AllHaveStatus n (to_withdrawal_by_status_response ds)
unfolding to_withdrawal_by_status_response to_status_response
All-responses n [] h = tt
All-responses n (d ∷ ds) h = (h.0, All-responses n ds h.1)

page_of-AllHaveStatus :
    (pages : Pages)
    → ((P : Deposit → Type 0) (column : String) (page limit : ℕ) (ds rows : List Deposit)
        → pages column page limit ds ≡ some rows
        → All P ds
        → All P rows)
    → (env : Environment) (status : WithdrawalStatus) (page limit : ℕ) (w : World)
      (answers : List CheckWithdrawalResponse)
    → (page_of pages env status page limit w).0 ≡ inl answers
    → AllHaveStatus (status_number status) answers
unfolding page_of get_with_status query
page_of-AllHaveStatus pages keep env status page limit w answers h =
    elim (Bool-cases (env.db_fault w.calls)) [
      | inl e ↦ absurd (ground (arith, e))
      | inr e ↦
          elim (Option-cases
            (pages page_column page limit (select_all (has_status status) w.deposits))) [
              | inl q ↦ absurd (ground (arith, e, q))
              | inr (rows, q) ↦
                  subst (AllHaveStatus (status_number status)) (ground (arith, e, q)) (
                    All-responses (status_number status) rows
                      (keep _ page_column page limit _ rows q (All-select_all status w.deposits)))
            ]
    ]

-- If a page that the database does not refuse holds only rows that it is given, every answer of the query
-- by status has the status that was asked for, which is not zero.
get_withdrawals_by_status-AllHaveStatus :
    (pages : Pages)
    → ((P : Deposit → Type 0) (column : String) (page limit : ℕ) (ds rows : List Deposit)
        → pages column page limit ds ≡ some rows
        → All P ds
        → All P rows)
    → (env : Environment) (request : GetWithdrawalsByStatusRequest) (w : World) (n : ℕ)
      (answers : List CheckWithdrawalResponse)
    → request.withdrawal_status ≡ pos n
    → (get_withdrawals_by_status pages env request w).0 ≡ inl answers
    → (n ≢ 0) × AllHaveStatus n answers
unfolding get_withdrawals_by_status
get_withdrawals_by_status-AllHaveStatus pages keep env request w n answers asked h =
    elim (Option-cases (status_of (pos n))) [
      | inl e ↦ absurd (ground (arith, e))
      | inr (status, e) ↦ (
        ground (arith, e),
        subst (λ k. AllHaveStatus k answers) (status_number-status_of n status e)
            (page_of-AllHaveStatus pages keep env status request.page (limit_of request.limit) w
              answers (ground (arith, e))),
      )
    ]
