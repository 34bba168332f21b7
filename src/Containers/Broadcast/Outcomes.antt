-- ===== src/Containers/Broadcast/Outcomes.antt =====
-- What a run of the broadcast container returns, sends to the chain and stores.
use relayer_svc.Base.{
  ℕ, ◌+◌, ◌≡◌, refl, ap, subst, ◌∙◌, ap, Bool, true, false, Bool-cases, inl, inr, pure, Option,
  none, some, ◌∷◌, arith, if◌then◌else◌, case_option, ◌>>=◌, not, ◌&&◌,
}
use relayer_svc.Types.{
  Error, err_chain, err_panic, WithdrawalStatus, processing, failed, submitting_to_core,
  already_withdrawn,
}
use relayer_svc.Db.{DepositIdentifier, Deposit}
use relayer_svc.Env.{Environment, World}
use relayer_svc.Postgres.{exec}
use relayer_svc.Postgres.Deposits.{
  set_status, set_withdrawal_details, update, update_status, update_withdrawal_details,
}
use relayer_svc.Postgres.Rows.{row, row-set_status, row-set_withdrawal_details}
use relayer_svc.Containers.{
  Outcome, default_withdrawal_hash, check_processed, execute_withdrawal, or_default_hash,
  unless_panic,
}
use relayer_svc.Containers.Frame.{or_default_hash-KeepsKey, execute_withdrawal-identifier}
use relayer_svc.Containers.Broadcast.{
  reject, report_withdrawn, report_failure, report_unstored, submit, store_details, process, start,
  run,
}

-- The chain says that the deposit is open, and the row could be marked as processing.
abbrev pub is_started : Environment → Deposit → World → Bool
is_started env d w =
    case_option (env.is_processed w.calls d) false
      λ done. not done && not (env.db_fault (w.calls + 1))

-- A run calls the chain's Withdraw at most once, and exactly when the chain said that the deposit was
-- not withdrawn and the row was marked PROCESSING.
pub sent-run :
    (env : Environment) (d : Deposit) (w : World)
    → (run env d w).1.sent
      ≡ (if is_started env d w then set_status processing d ∷ w.sent else w.sent)
unfolding run reject report_withdrawn report_failure report_unstored submit store_details process
    start ◌>>=◌ exec update update_status update_withdrawal_details check_processed
    execute_withdrawal
sent-run env d w = ground arith

-- The columns of the withdrawal are those of the first deposit, the others those of the second.
abbrev pub reported_row : Deposit → Deposit → Deposit
reported_row d r = record r {
  withdrawal_tx_hash = d.withdrawal_tx_hash;
  withdrawal_chain_block = d.withdrawal_chain_block;
  withdrawal_core_block = d.withdrawal_core_block;
  withdrawal_status = d.withdrawal_status;
  operator = d.operator;
}

-- The returned deposit has the status, and the row has all that the returned deposit reports.
abbrev pub Reports : DepositIdentifier → Deposit → WithdrawalStatus → Outcome × World → Type 0
Reports id r status (o, w) =
    case_option o.0 ⊥
      λ d'. (d'.withdrawal_status ≡ status) × (row id w.deposits ≡ some (reported_row d' r))

-- What a run leaves once it called Withdraw, which panicked or not and failed or not.
abbrev pub Withdraws : Bool → Bool → DepositIdentifier → Deposit → Outcome × World → Type 0
Withdraws true fails id r (o, w) =
    (o ≡ (none, some err_panic))
    × (row id w.deposits ≡ some (record r { withdrawal_status = processing }))
Withdraws false true id r x = Reports id r failed x
Withdraws false false id r x = Reports id r submitting_to_core x

-- What a run leaves when every statement succeeds, from the answers of the chain.
abbrev pub Ends : Environment → Deposit → Deposit → World → Option Bool → Outcome × World → Type 0
Ends env d r w none (o, w') =
    row d.identifier w'.deposits ≡ some (record r { withdrawal_status = failed })
Ends env d r w (some true) x = Reports d.identifier r already_withdrawn x
Ends env d r w (some false) x =
    let answer = env.withdraw (w.calls + 1 + 1) (record d { withdrawal_status = processing }) in
    Withdraws answer.panics answer.fails d.identifier r x

-- The rows differ in what the details overwrite, at most.
SameBase : Deposit → Deposit → Type 0
SameBase q r = (x : Deposit) → set_withdrawal_details x q ≡ set_withdrawal_details x r

module _ (env : Environment) (live : (n : ℕ) → env.db_fault n ≡ false) where
  row-marked :
      (status : WithdrawalStatus) (id : DepositIdentifier) (q : Deposit) (w : World)
      → row id w.deposits ≡ some q
      → row id (update_status env id status w).1.deposits ≡ some (set_status status q)
  unfolding exec update update_status
  row-marked status id q w e = simp (live, row-set_status, e)

  row-written :
      (d q : Deposit) (w : World) (id : DepositIdentifier)
      → d.identifier ≡ id
      → row id w.deposits ≡ some q
      → row id (update_withdrawal_details env d w).1.deposits ≡ some (set_withdrawal_details d q)
  unfolding exec update update_withdrawal_details
  row-written d q w id own e = simp (live, own, row-set_withdrawal_details, e)

  succeeds-update_status :
      (status : WithdrawalStatus) (id : DepositIdentifier) (w : World)
      → (update_status env id status w).0 ≡ none
  unfolding exec update update_status
  succeeds-update_status status id w = simp live

  succeeds-update_withdrawal_details :
      (d : Deposit) (w : World) → (update_withdrawal_details env d w).0 ≡ none
  unfolding exec update update_withdrawal_details
  succeeds-update_withdrawal_details d w = simp live

module _ (env : Environment) (live : (n : ℕ) → env.db_fault n ≡ false) (r : Deposit) where
  store_details-Reports :
      (d q : Deposit) (w : World)
      → row d.identifier w.deposits ≡ some q
      → SameBase q r
      → Reports d.identifier r submitting_to_core (store_details env d w)
  unfolding SameBase store_details submit ◌>>=◌ exec update update_status update_withdrawal_details
      set_status set_withdrawal_details
  store_details-Reports d q w e base =
      simp (live, row-set_status, row-set_withdrawal_details, e)
        (refl, ap (λ x. some (set_status submitting_to_core x)) (base d))

  report_failure-Reports :
      (d q : Deposit) (x : Error) (w : World)
      → row d.identifier w.deposits ≡ some q
      → SameBase q r
      → Reports d.identifier r failed (report_failure env d x w)
  unfolding SameBase report_failure ◌>>=◌ set_status set_withdrawal_details
  report_failure-Reports d q x w e base = (
    (unfold or_default_hash in ground arith),
    row-written env live (or_default_hash (set_status failed d)) (set_status failed q) _
          d.identifier (or_default_hash-KeepsKey _) (row-marked env live failed d.identifier q w e)
        ∙ ap some (base (or_default_hash (set_status failed d))),
  )

  report_withdrawn-Reports :
      (d q : Deposit) (w : World)
      → row d.identifier w.deposits ≡ some q
      → SameBase q r
      → Reports d.identifier r already_withdrawn (report_withdrawn env d w)
  unfolding SameBase report_withdrawn ◌>>=◌ set_status set_withdrawal_details
  report_withdrawn-Reports d q w e base = (
    refl,
    row-written env live
          (record (set_status already_withdrawn d) {
            withdrawal_tx_hash = some default_withdrawal_hash;
          })
          (set_status already_withdrawn q) _ d.identifier refl
          (row-marked env live already_withdrawn d.identifier q w e)
        ∙ ap some (
            base (record (set_status already_withdrawn d) {
              withdrawal_tx_hash = some default_withdrawal_hash;
            })),
  )

calls-update_status :
    (env : Environment) (status : WithdrawalStatus) (id : DepositIdentifier) (w : World)
    → (update_status env id status w).1.calls ≡ w.calls + 1
unfolding exec update update_status
calls-update_status env status id w = ground arith

base_refl : (r : Deposit) → SameBase r r
unfolding SameBase
base_refl r x = refl

base_of_status : (status : WithdrawalStatus) (r : Deposit) → SameBase (set_status status r) r
unfolding SameBase set_status set_withdrawal_details
base_of_status status r x = refl

error-execute_withdrawal :
    (env : Environment) (d : Deposit) (w : World)
    → (env.withdraw w.calls d).panics ≡ false
    → (execute_withdrawal env d w).0.1
      ≡ (if (env.withdraw w.calls d).fails then some err_chain else none)
unfolding execute_withdrawal ◌>>=◌
error-execute_withdrawal env d w p = ground arith

panic-execute_withdrawal :
    (env : Environment) (d : Deposit) (w : World)
    → (env.withdraw w.calls d).panics ≡ true
    → (execute_withdrawal env d w).0.1 ≡ some err_panic
unfolding execute_withdrawal ◌>>=◌
panic-execute_withdrawal env d w p = ground arith

deposits-execute_withdrawal :
    (env : Environment) (d : Deposit) (w : World)
    → (execute_withdrawal env d w).1.deposits ≡ w.deposits
unfolding execute_withdrawal ◌>>=◌
deposits-execute_withdrawal env d w = ground arith

module _ (env : Environment) (live : (n : ℕ) → env.db_fault n ≡ false) (r : Deposit) where
  finish-Withdraws :
      (fails : Bool) (d q : Deposit) (w : World)
      → row d.identifier w.deposits ≡ some q
      → SameBase q r
      → Withdraws false fails d.identifier r (
          case_option
            (if fails then some err_chain else none)
            (store_details env d)
            (unless_panic (report_failure env d))
            w)
  unfolding unless_panic
  finish-Withdraws true d q w e base = report_failure-Reports env live r d q err_chain w e base
  finish-Withdraws false d q w e base = store_details-Reports env live r d q w e base

  process-Withdraws :
      (d : Deposit) (w : World)
      → row d.identifier w.deposits ≡ some (set_status processing r)
      → Withdraws
          (env.withdraw w.calls d).panics
          (env.withdraw w.calls d).fails
          d.identifier
          r
          (process env d w)
  unfolding process ◌>>=◌
  process-Withdraws d w e = elim (Bool-cases (env.withdraw w.calls d).panics) [
    | inl p ↦
        rw (p, panic-execute_withdrawal env d w p)
          (unfold unless_panic pure set_status in
            (refl, rw (deposits-execute_withdrawal env d w) e))
    | inr p ↦
        rw (p, error-execute_withdrawal env d w p)
          (subst (λ i. Withdraws false (env.withdraw w.calls d).fails i r finished) own
            (finish-Withdraws _ d' (set_status processing r) w'
              (rw (own, deposits-execute_withdrawal env d w) e) (base_of_status processing r)))
  ]
    where
      d' : Deposit
      d' = (execute_withdrawal env d w).0.0

      w' : World
      w' = (execute_withdrawal env d w).1

      own : d'.identifier ≡ d.identifier
      own = execute_withdrawal-identifier env d w

      finished : Outcome × World
      finished =
          case_option (if (env.withdraw w.calls d).fails then some err_chain else none)
            (store_details env d') (unless_panic (report_failure env d')) w'

  start-Withdraws :
      (d : Deposit) (w : World)
      → row d.identifier w.deposits ≡ some r
      → let answer = env.withdraw (w.calls + 1) (set_status processing d) in
        Withdraws answer.panics answer.fails d.identifier r (start env d w)
  unfolding start ◌>>=◌ set_status
  start-Withdraws d w e = rw (succeeds-update_status env live processing d.identifier w) (
      subst
        (λ n.
          Withdraws (env.withdraw n (set_status processing d)).panics
            (env.withdraw n (set_status processing d)).fails d.identifier r
            (process env (set_status processing d) (update_status env d.identifier processing w).1))
        (calls-update_status env processing d.identifier w)
        (process-Withdraws (set_status processing d) _
          (row-marked env live processing d.identifier r w e)))

-- When every statement succeeds and the deposit has a row, a run leaves it with the status that the
-- chain's answers call for: FAILED where IsProcessed or Withdraw fails, ALREADY_WITHDRAWN where the chain
-- has the withdrawal, SUBMITTING_TO_CORE where it was sent now. Unless IsProcessed failed, the run also
-- returns a deposit, and the row has its withdrawal's hash, blocks and operator. Where Withdraw panics, so
-- does the run, and the row stays PROCESSING.
pub run-Reports :
    (env : Environment)
    → ((n : ℕ) → env.db_fault n ≡ false)
    → (d r : Deposit) (w : World) → row d.identifier w.deposits ≡ some r
    → Ends env d r w (env.is_processed w.calls d) (run env d w)
unfolding run ◌>>=◌ check_processed
run-Reports env live d r w e = go (env.is_processed w.calls d)
  where
    go :
        (answer : Option Bool)
        → Ends env d r w answer (
            case_option answer
              (reject env d)
              (λ processed. if processed then report_withdrawn env d else start env d)
              (record w { calls = w.calls + 1 }))
    go none = unfold reject ◌>>=◌ set_status in row-marked env live failed d.identifier r _ e
    go (some true) = report_withdrawn-Reports env live r d r _ e (base_refl r)
    go (some false) = unfold set_status in start-Withdraws env live r d _ e
