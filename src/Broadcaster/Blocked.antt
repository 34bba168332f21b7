-- ===== src/Broadcaster/Blocked.antt =====
-- Batches with a deposit that the core already has a withdrawal hash for.
use relayer_svc.Base.{
  ℕ, ◌≡◌, ◌≢◌, inl, inr, sym, ◌∙◌, ap, subst, Bool, true, false, ◌||◌, Option, none, some, List, [],
  ◌∷◌, arith, ◌>>=◌,
}
use relayer_svc.Types.{Error, Result, ok, err, Result-cases}
use relayer_svc.Db.{DepositIdentifier, Deposit}
use relayer_svc.Env.{Environment, World, TransactionAnswer, found, missing, unreachable}
use relayer_svc.Retry.{Runs, stopped, last, again, Retrier}
use relayer_svc.Connector.{nil_or_not_empty, to_query, get_deposit, tx_to_deposit}
use relayer_svc.Connector.Update.{Message, collect, update_tx_info, submit_msgs}
use relayer_svc.Containers.Catchup.{is_some}
use relayer_svc.Broadcaster.{Config}
use relayer_svc.Broadcaster.Submitter.{Pool, update_tx, flush}
use relayer_svc.Broadcaster.Batches.{identifiers, identifiers-update_tx, identifiers-flush}

-- The answer holds a withdrawal hash.
abbrev pub has_hash : TransactionAnswer → Bool
has_hash (found tx) = is_some (nil_or_not_empty tx.withdrawal_tx_hash)
has_hash missing = false
has_hash unreachable = false

-- Some message is nil.
abbrev pub has_nil : List Message → Bool
has_nil [] = false
has_nil (none ∷ ms) = true
has_nil (some tx ∷ ms) = has_nil ms

abbrev pub any_of : (DepositIdentifier → Bool) → List DepositIdentifier → Bool
any_of p [] = false
any_of p (id ∷ ids) = p id || any_of p ids

-- What the service relies on: the core has withdrawal hashes for the deposits in `reported`, and
-- the transaction builder refuses a nil message.
pub record Reported (env : Environment) (reported : DepositIdentifier → Bool) : Type 0 where
  pub is_reported :
      (n : ℕ) (id : DepositIdentifier)
      → reported id ≡ true
      → has_hash (env.transaction_by_id n (to_query id)) ≡ true
  pub refuses_nil : (ms : List Message) → has_nil ms ≡ true → env.set_msgs ms ≡ false

-- No transaction can be built from the result of `collect`.
abbrev spoilt : Result (List Message) → Bool
spoilt (err e) = true
spoilt (ok ms) = has_nil ms

module _ (env : Environment) (reported : DepositIdentifier → Bool) (h : Reported env reported) where
  collect-spoilt :
      (ds : List Deposit) (w : World)
      → any_of reported (identifiers ds) ≡ true
      → spoilt (collect env ds w).0.1 ≡ true
  unfolding collect ◌>>=◌ get_deposit tx_to_deposit is_some
  collect-spoilt [] w e = cc
  collect-spoilt (d ∷ ds) w e = ground (
    arith,
    h.is_reported w.calls d.identifier,
    collect-spoilt ds (get_deposit env d.identifier w).1,
  )

  submit_msgs_nil :
      (price : ℕ) (ms : List Message) (w : World)
      → has_nil ms ≡ true
      → (submit_msgs env price ms w).0 ≢ none
  unfolding submit_msgs ◌>>=◌
  submit_msgs_nil price [] w e = cc
  submit_msgs_nil price (m ∷ ms) w e = ground (arith, h.refuses_nil (m ∷ ms))

  update_tx_info_fails :
      (price : ℕ) (ds : List Deposit) (w : World)
      → any_of reported (identifiers ds) ≡ true
      → (update_tx_info env price ds w).0.1 ≢ none
  unfolding update_tx_info ◌>>=◌
  update_tx_info_fails price ds w e q = elim (Result-cases (collect env ds w).0.1) [
    | inl (x, failed) ↦ ground (arith, failed)
    | inr (ms, built) ↦
        ground (arith, built, collect-spoilt ds w, submit_msgs_nil price ms (collect env ds w).1)
  ]

  update_tx_blocked :
      (config : Config) (p : Pool)
      → any_of reported (identifiers p.0) ≡ true
      → (update_tx env config p).0 ≢ none
  unfolding update_tx
  update_tx_blocked config (ds, w) e = update_tx_info_fails config.min_gas_price ds w e

  Runs-blocked :
      (config : Config) {p : Pool} {r : Option Error × Pool}
      → Runs (update_tx env config) p r
      → any_of reported (identifiers p.0) ≡ true
      → r.0 ≢ none
  Runs-blocked config stopped blocked = λ q. cc q
  Runs-blocked config {p} (last e) blocked =
      subst (λ (x : Option Error × Pool). x.0 ≢ none) e (update_tx_blocked config p blocked)
  Runs-blocked config {p} (again {s' = p'} x e more) blocked = Runs-blocked config more (
      ap (any_of reported) (
        ap (λ (y : Option Error × Pool). identifiers y.1.0) (sym e)
        ∙ identifiers-update_tx env config p)
      ∙ blocked)

  -- If the transaction builder refuses nil messages and the core has withdrawal hashes for the deposits
  -- in `reported`, flushing a pool that has one of them keeps all its deposits, however often the
  -- update is tried.
  pub flush_blocked :
      (config : Config) (retrier : Retrier Pool) (p : Pool)
      → any_of reported (identifiers p.0) ≡ true
      → identifiers (flush env config retrier p).0 ≡ identifiers p.0
  flush_blocked config retrier p blocked = elim (identifiers-flush env config retrier p) [
    | inl done ↦ absurd (Runs-blocked config (retrier.runs (update_tx env config) p) blocked done)
    | inr kept ↦ kept
  ]
