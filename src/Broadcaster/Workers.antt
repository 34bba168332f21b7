-- ===== src/Broadcaster/Workers.antt =====
-- internal/core/broadcaster/network_worker.go: one round of a worker, on the task that it receives.
-- Several workers serve a chain, so any waiting task may be the next one.
use relayer_svc.Base.{
  ℕ, zero, suc, Option, none, some, List, [], ◌∷◌, ◌++◌, State, pure, ◌>>=◌, case_option,
}
use relayer_svc.Types.{Error, err_panic}
use relayer_svc.Db.{Deposit, Epoch}
use relayer_svc.Db.Text.{id_string}
use relayer_svc.Env.{Environment, World}
use relayer_svc.Containers.{Outcome}
use relayer_svc.Containers.Broadcast
use relayer_svc.Containers.Catchup
use relayer_svc.Containers.Signers
use relayer_svc.Broadcaster.{Service, Task, broadcast_task, catch_up_task, on_world, uncache}

unfoldable pub run_container : Environment → Task → State World Outcome
run_container env (broadcast_task d) = Broadcast.run env d
run_container env (catch_up_task d) = Catchup.run env d

-- `b.submitChan <- deposit`
unfoldable pub send : Option Deposit → State Service (Option Error)
send none s = (some err_panic, s)
send (some d) s = (none, record s { submissions = s.submissions ++ d ∷ [] })

-- `b.cache.Delete(deposit.String())`: a nil deposit has no identifier, and the process dies.
unfoldable pub forget : Option Deposit → State Service (Option Error)
forget none s = (some err_panic, s)
forget (some d) s = (none, record s { cache = uncache (id_string d.identifier) s.cache })

-- What the worker does with what `Run` returned. A nil deposit that is sent on is nobody's error
-- until the submitter reads it, which is a panic too.
unfoldable pub settle : Outcome → State Service (Option Error)
unfolding send forget
settle (d, none) = send d
settle (d, some e) = forget d

unfoldable pub work : Environment → Task → State Service (Option Error)
unfolding settle
work env task = do outcome ← on_world (run_container env task); settle outcome

-- The i-th element of a channel is received, if there is one.
unfoldable pub take_task : {A : Type 0} → ℕ → List A → Option (A × List A)
take_task i [] = none
take_task zero (t ∷ ts) = some (t, ts)
take_task {A = A} (suc i) (t ∷ ts) =
    case_option (take_task i ts) none λ (r : A × List A). some (r.0, t ∷ r.1)

unfoldable pub run_withdrawal_network_worker : Environment → ℕ → State Service (Option Error)
unfolding take_task
run_withdrawal_network_worker env i s =
    case_option (take_task i s.withdrawals) (none, s)
      λ (r : Task × List Task). work env r.0 (record s { withdrawals = r.1 })

-- Errors of the signers' containers are logged; a panic ends the process.
panic_of : Option Error → Option Error
panic_of (some err_panic) = some err_panic
panic_of _ = none

unfoldable pub work_signers : Environment → Epoch → State Service (Option Error)
unfolding panic_of
work_signers env epoch = do (_, e) ← on_world (Signers.run env epoch); pure (panic_of e)

unfoldable pub run_update_signers_network_worker : Environment → ℕ → State Service (Option Error)
unfolding take_task work_signers
run_update_signers_network_worker env i s =
    case_option (take_task i s.signers) (none, s)
      λ (r : Epoch × List Epoch). work_signers env r.0 (record s { signers = r.1 })

-- What the `select` of a worker picks: the end of the context, a closed channel, or the container of a
-- number.
pub data Signal : Type 0 where
  cancelled closed : Signal
  receives : ℕ → Signal

-- The loop of a worker over what its `select` picks, one after another; a panic ends the process.
unfoldable pub serve :
    (ℕ → State Service (Option Error)) → List Signal → State Service (Option Error)
serve round [] s = (none, s)
serve round (cancelled ∷ signals) s = (none, s)
serve round (closed ∷ signals) s = (none, s)
serve round (receives i ∷ signals) s =
    let (e, s') = round i s in
    let rest = serve round signals s' in case_option e rest λ x. (some x, s')
