-- ===== src/Api/Handlers.antt =====
-- internal/api/grpc/{submit_withdrawal,check_withdrawal,get_withdrawals_by_status}.go
use relayer_svc.Base.{
  String, ℕ, ℤ, pos, negsuc, pos_part, neg_part, sub_ℕ, eqb_ℤ, to_int64, to_uint64, ◌%◌, ◌^◌, ◌+◌,
  ◌==◌, not, ◌⊎◌, inl, inr, Option, none, some, List, State, pure, ◌>>=◌, ◌>>◌, if◌then◌else◌,
  case_option,
}
use relayer_svc.Types.{
  Error, err_failed_to_broadcast, err_not_found, err_panic, ok, err, case_result, WithdrawalStatus,
  unspecified, pending, processing, submitting_to_core, processed, failed, already_withdrawn,
}
use relayer_svc.Db.{DepositIdentifier, Deposit}
use relayer_svc.Env.{Environment, World}
use relayer_svc.Postgres.Deposits.{get, get_with_status}
use relayer_svc.Connector.{get_deposit}
use relayer_svc.Repository.{supports_chain}
use relayer_svc.Broadcaster.{Config, on_world}
use relayer_svc.Broadcaster.Limits.{
  Shared, on_service, with_recovery_attempts, with_recovery_timeout, broadcast_deposit_limited,
}
use relayer_svc.Api.{
  Rules, validate_identifier, CheckWithdrawalResponse, to_status_response, to_db_identifier,
  to_withdrawal_by_status_response,
}

-- The gRPC codes that the handlers answer with; `panicked` is a handler that panics.
pub data Code : Type 0 where
  invalid_argument not_found internal panicked : Code

-- The code for an error of `GetDeposit`: the core's message says "not found".
unfoldable pub fetch_code : Error → Code
fetch_code err_not_found = not_found
fetch_code _ = internal

-- The code for an error of `BroadcastDeposit`.
unfoldable pub broadcast_code : Error → Code
broadcast_code err_failed_to_broadcast = internal
broadcast_code err_panic = panicked
broadcast_code _ = invalid_argument

-- The limits of the recovery are set on the broadcaster before it is called.
unfoldable pub hand_over : Environment → Config → Deposit → State Shared (Option Code)
unfolding broadcast_code with_recovery_attempts with_recovery_timeout broadcast_deposit_limited
hand_over env config d = do
  with_recovery_attempts config.recovery_attempts
  with_recovery_timeout config.recovery_timeout
  e ← broadcast_deposit_limited env config d
  pure (case_option e none λ e'. some (broadcast_code e'))

-- The tests on the deposit that the core answered with.
unfoldable pub submit_deposit : Environment → Config → Deposit → State Shared (Option Code)
unfolding hand_over
submit_deposit env config d =
    if not (supports_chain config.clients d.withdrawal_chain_id)
    then pure (some invalid_argument)
    else case_option d.withdrawal_tx_hash (hand_over env config d)
        λ hash. pure (some invalid_argument)

unfoldable pub submit_identified :
    Environment → Config → DepositIdentifier → State Shared (Option Code)
unfolding submit_deposit fetch_code to_db_identifier on_service
submit_identified env config id = do
  fetched ← on_service (on_world (get_deposit env (to_db_identifier id)))
  case_result fetched (submit_deposit env config) λ e. pure (some (fetch_code e))

-- `SubmitWithdrawal`; `none` is an empty answer without an error.
unfoldable pub submit_withdrawal :
    Rules → Environment → Config → Option DepositIdentifier → State Shared (Option Code)
unfolding submit_identified
submit_withdrawal rules env config id =
    if validate_identifier rules id
    then case_option id (pure (some panicked)) (submit_identified env config)
    else pure (some invalid_argument)

-- Subtraction of int64, with its wrap-around.
unfoldable pub sub_int64 : ℤ → ℤ → ℤ
sub_int64 a b = to_int64 ((to_uint64 a + to_uint64 (sub_ℕ (neg_part b) (pos_part b))) % 2 ^ 64)

-- The attempts that are left. The sum of the time and the timeout is dropped in the source, so the
-- time stays.
unfoldable pub with_attempts_left : Config → Deposit → Deposit
unfolding sub_int64
with_attempts_left config d = record d {
  recovery_attempts = sub_int64 (to_int64 config.recovery_attempts) d.recovery_attempts;
}

unfoldable pub check_identified :
    Environment → Config → DepositIdentifier → World → (CheckWithdrawalResponse ⊎ Code) × World
check_identified env config id w =
    let (r, w') = get env (to_db_identifier id) w in
    (
      elim r [
        | err e ↦ inr internal
        | ok none ↦ inr not_found
        | ok (some d) ↦ inl (to_status_response (with_attempts_left config d))
      ],
      w',
    )

-- `CheckWithdrawal`
unfoldable pub check_withdrawal :
    Rules
    → Environment
    → Config
    → Option DepositIdentifier
    → World
    → (CheckWithdrawalResponse ⊎ Code) × World
unfolding check_identified
check_withdrawal rules env config id w =
    if validate_identifier rules id
    then case_option id (inr panicked, w) (λ i. check_identified env config i w)
    else (inr invalid_argument, w)

-- `WithdrawalStatus_name`: the numbers that are statuses.
unfoldable pub status_of : ℤ → Option WithdrawalStatus
status_of (negsuc n) = none
status_of (pos n) =
    if n == 0
    then some unspecified
    else if n == 1
    then some pending
    else if n == 2
    then some processing
    else if n == 3
    then some submitting_to_core
    else if n == 4
    then some processed
    else if n == 5
    then some failed
    else if n == 6
    then some already_withdrawn
    else none

pub record GetWithdrawalsByStatusRequest : Type 0 where
  pub withdrawal_status : ℤ
  pub page : ℕ
  pub limit : ℕ

-- The limit that is asked for, or ten.
unfoldable pub limit_of : ℕ → ℕ
limit_of limit = if limit == 0 then 10 else limit

-- `pgdb.OffsetPageParams.ApplyTo`: the page of the rows that a query selects, given the column that they
-- are sorted by, the page's number and its limit; none if the database refuses the query.
abbrev pub Pages : Type 0
Pages = String → ℕ → ℕ → List Deposit → Option (List Deposit)

-- The column that `Page` sorts by.
abbrev pub page_column : String
page_column = "id"

unfoldable pub page_of :
    Pages
    → Environment
    → WithdrawalStatus
    → ℕ
    → ℕ
    → World
    → (List CheckWithdrawalResponse ⊎ Code) × World
page_of pages env status page limit w =
    let (r, w') = get_with_status env status w in
    (
      case_result r
          (λ ds.
            case_option (pages page_column page limit ds) (inr internal)
              λ rows. inl (to_withdrawal_by_status_response rows))
          (λ e. inr internal),
      w',
    )

-- `GetWithdrawalsByStatus`
unfoldable pub get_withdrawals_by_status :
    Pages
    → Environment
    → GetWithdrawalsByStatusRequest
    → World
    → (List CheckWithdrawalResponse ⊎ Code) × World
unfolding status_of limit_of page_of
get_withdrawals_by_status pages env request w =
    if eqb_ℤ request.withdrawal_status (pos 0)
    then (inr invalid_argument, w)
    else case_option (status_of request.withdrawal_status) (inr invalid_argument, w)
        λ status. page_of pages env status request.page (limit_of request.limit) w
