-- ===== src/Broadcaster/Submitter.antt =====
-- internal/core/broadcaster/core_submitter.go: the goroutine that reports withdrawals to the core in
-- batches. Its pool holds the pointers received since the last batch went through.
use relayer_svc.Base.{
  ◌==◌, Bool, Option, List, [], ◌∷◌, ◌++◌, length, ltb, State, if◌then◌else◌, case_option,
}
use relayer_svc.Types.{Error, status_number, submitting_to_core, processed}
use relayer_svc.Db.{Deposit}
use relayer_svc.Env.{Environment, World}
use relayer_svc.Postgres.Deposits.{update_status}
use relayer_svc.Retry.{Retrier}
use relayer_svc.Connector.Update.{update_tx_info}
use relayer_svc.Broadcaster.{Config}

-- The pool and the world: what `updateTx` reads and writes.
abbrev pub Pool : Type 0
Pool = List Deposit × World

-- The closure `updateTx`.
unfoldable pub update_tx : Environment → Config → State Pool (Option Error)
update_tx env config (pool, w) =
    let ((pool', e), w') = update_tx_info env config.min_gas_price pool w in (e, (pool', w'))

unfoldable pub is_submitting : Deposit → Bool
is_submitting d = status_number d.withdrawal_status == status_number submitting_to_core

-- The loop over the batch; a failed update is logged.
unfoldable pub mark_processed : Environment → List Deposit → World → World
unfolding is_submitting
mark_processed env [] w = w
mark_processed env (d ∷ ds) w =
    mark_processed env ds
      (if is_submitting d then (update_status env d.identifier processed w).1 else w)

module _ (env : Environment) (config : Config) (retrier : Retrier Pool) where
  -- Once the batch is accepted its rows are closed and the pool is emptied; else the pool stays.
  unfoldable pub flush : Pool → Pool
  flush p =
      let (e, p') = retrier.do_with_retry (update_tx env config) p in
      case_option e ([], mark_processed env p'.0 p'.1) (λ _. p')

  -- One round of the loop, on a deposit from the channel.
  unfoldable pub receive : Deposit → Pool → Pool
  unfolding flush
  receive d (pool, w) =
      let pool' = pool ++ d ∷ [] in
      if ltb (length pool') config.submit_batch_size then (pool', w) else flush (pool', w)
