-- ===== src/Observer.antt =====
-- internal/core/observer/observer.go: the events of the core's blocks, and the loop over heights.
pub mod Numbers
pub mod Attributes
pub mod Loop
pub mod Waiting
use relayer_svc.Base.{
  ℕ, zero, suc, ℤ, ◌+◌, ◌-◌, ◌%◌, ◌^◌, String, str_eq, Bool, true, false, not, ◌||◌, Option, none,
  some, List, [], ◌∷◌, ◌++◌, ltb, leb, to_uint64, to_int64, State, pure, ◌>>=◌, if◌then◌else◌,
  case_option,
}
use relayer_svc.Types.{
  Error, err_core, err_parse, err_panic, err_skipped, Result, ok, err, case_result,
}
use relayer_svc.Db.{Deposit, Epoch}
use relayer_svc.Env.{Environment, World}
use relayer_svc.Postgres.Blocks
use relayer_svc.Retry.{Retrier}
use relayer_svc.Repository.{supports_chain}
use relayer_svc.Broadcaster.{Service, Config, on_world, broadcast_deposit}
use relayer_svc.Broadcaster.Epochs.{broadcast_epoch}
use relayer_svc.Broadcaster.CatchUp.{go_on}
use relayer_svc.Containers.Catchup.{is_some}
use relayer_svc.Observer.Attributes.{
  Attribute, DepositKeys, parse_submitted_deposit, parse_updated_epochs,
}

-- An event of a message in a transaction's log, or of the beginning of a block.
pub record Event : Type 0 where
  pub type : String
  pub attributes : List Attribute

-- What encoding/json makes of `tx.Log`: no JSON, JSON of another shape, or the messages' events.
pub data TxLog : Type 0 where
  invalid_log malformed_log : TxLog
  messages : List (List Event) → TxLog

-- The results of a block, the fields that the observer uses.
pub record BlockResults : Type 0 where
  pub txs_results : List TxLog
  pub begin_block_events : List Event

pub record BlockEvents : Type 0 where
  pub deposits : List Deposit
  pub epochs : List Epoch

-- What the observer is given: the core node's `BlockResults`, the retries of its two closures, the keys
-- of attributes, and the distance that it keeps from the last block.
pub record Feed : Type 0 where
  pub block_results : ℕ → ℤ → Option BlockResults
  pub retry_height : Retrier (Option ℤ × World)
  pub retry_block : Retrier (Option BlockResults × World)
  pub keys : DepositKeys
  pub block_distance : ℕ

-- `append(…)` before the values that follow.
unfoldable pub prepend {ℓ} : {A : Type ℓ} → Result A → Result (List A) → Result (List A)
prepend (err e) rest = err e
prepend (ok a) rest = case_result rest (λ as'. ok (a ∷ as')) err

unfoldable pub events_of {ℓ} :
    {A : Type ℓ} → String → (List Attribute → Result A) → List Event → Result (List A)
unfolding prepend
events_of type parse [] = ok []
events_of type parse (e ∷ es) =
    let rest = events_of type parse es in
    if str_eq e.type type then prepend (parse e.attributes) rest else rest

-- `append` of two results, the first error counting.
unfoldable pub join {ℓ} : {A : Type ℓ} → Result (List A) → Result (List A) → Result (List A)
join (err e) rest = err e
join (ok xs) rest = case_result rest (λ ys. ok (xs ++ ys)) err

unfoldable pub deposits_of_messages : DepositKeys → List (List Event) → Result (List Deposit)
unfolding join events_of
deposits_of_messages keys [] = ok []
deposits_of_messages keys (m ∷ ms) =
    join (events_of "DEPOSIT_SUBMITTED" (parse_submitted_deposit keys) m)
      (deposits_of_messages keys ms)

-- `parseDepositsFromTxResults`
unfoldable pub parse_deposits_from_tx_results : DepositKeys → List TxLog → Result (List Deposit)
unfolding deposits_of_messages
parse_deposits_from_tx_results keys [] = ok []
parse_deposits_from_tx_results keys (invalid_log ∷ txs) = parse_deposits_from_tx_results keys txs
parse_deposits_from_tx_results keys (malformed_log ∷ txs) = err err_parse
parse_deposits_from_tx_results keys (messages ms ∷ txs) =
    join (deposits_of_messages keys ms) (parse_deposits_from_tx_results keys txs)

-- `parseEpochsFromBlockEvents`
unfoldable pub parse_epochs_from_block_events : List Event → Result (List Epoch)
unfolding events_of
parse_epochs_from_block_events = events_of "EPOCH_UPDATED" parse_updated_epochs

-- The closure `getCurrentHeight`, which writes its variable `info`.
unfoldable pub ask_height : Environment → State (Option ℤ × World) (Option Error)
ask_height env (info, w) =
    let answer = env.abci_height w.calls in
    (case_option answer (some err_core) (λ h. none), (answer, record w { calls = w.calls + 1 }))

-- `getCurrentHeight`
unfoldable pub get_current_height : Environment → Feed → State World (Result ℕ)
unfolding ask_height
get_current_height env feed w =
    let (e, (info, w')) = feed.retry_height.do_with_retry (ask_height env) (none, w) in
    (case_option e (case_option info (err err_panic) (λ h. ok (to_uint64 h))) err, w')

unfoldable pub ask_block : Feed → ℤ → State (Option BlockResults × World) (Option Error)
ask_block feed height (info, w) =
    let answer = feed.block_results w.calls height in
    (case_option answer (some err_core) (λ b. none), (answer, record w { calls = w.calls + 1 }))

-- What `fetchBlockEvents` reads in a block.
unfoldable pub read_block : DepositKeys → BlockResults → Result BlockEvents
unfolding parse_deposits_from_tx_results parse_epochs_from_block_events
read_block keys b =
    case_result (parse_deposits_from_tx_results keys b.txs_results)
      (λ ds.
        case_result (parse_epochs_from_block_events b.begin_block_events)
          (λ es. ok (record { deposits = ds; epochs = es })) err)
      err

-- `fetchBlockEvents`
unfoldable pub fetch_block_events : Feed → ℤ → State World (Result BlockEvents)
unfolding ask_block read_block
fetch_block_events feed height w =
    let (e, (info, w')) = feed.retry_block.do_with_retry (ask_block feed height) (none, w) in
    (case_option e (case_option info (err err_panic) (read_block feed.keys)) err, w')

-- `waitForBlockDistance`, for so many rounds; false if it still waits. The gap wraps at 64 bits.
unfoldable pub wait_for_block_distance : ℕ → Environment → Feed → ℕ → State World Bool
unfolding get_current_height
wait_for_block_distance zero env feed start w = (false, w)
wait_for_block_distance (suc fuel) env feed start w =
    let (current, w') = get_current_height env feed w in
    let rest = wait_for_block_distance fuel env feed start w' in
    case_result current
      (λ h. if leb feed.block_distance ((h + (2 ^ 64 - start)) % 2 ^ 64) then (true, w') else rest)
      λ e. (true, w')

-- `broadcastDeposit`, and `isProcessed`.
unfoldable pub observe_deposit : Environment → Config → Deposit → State Service (Option Error)
observe_deposit env config d =
    if is_some d.withdrawal_tx_hash || not (supports_chain config.clients d.withdrawal_chain_id)
    then pure (some err_skipped)
    else broadcast_deposit env config d

-- The loops over a block's deposits and epochs go on past an error.
unfoldable pub observe_deposits : Environment → Config → List Deposit → State Service (Option Error)
unfolding observe_deposit go_on
observe_deposits env config [] = pure none
observe_deposits env config (d ∷ ds) =
    observe_deposit env config d >>= go_on (observe_deposits env config ds)

unfoldable pub observe_epochs : Environment → Config → List Epoch → State Service (Option Error)
unfolding go_on
observe_epochs env config [] = pure none
observe_epochs env config (e ∷ es) =
    broadcast_epoch env config e >>= go_on (observe_epochs env config es)

unfoldable pub observe_block : Environment → Config → BlockEvents → State Service (Option Error)
unfolding observe_deposits observe_epochs
observe_block env config events =
    observe_deposits env config events.deposits >>= go_on (observe_epochs env config events.epochs)
