-- ===== src/Retry.antt =====
-- internal/core/retry.go. `DoWithRetry` hands a closure to retry-go, which is a parameter here: it
-- runs the closure again after a failure, answers with the outcome of the last run, or gives up with
-- an error of its own when the context is done. How many runs there are and how long it waits are
-- not fixed.
use relayer_svc.Base.{Option, some, ◌≡◌, State}
use relayer_svc.Types.{Error, err_stopped}

-- The outcomes that runs of the closure, one after another, can end with.
pub data Runs {S : Type 0} (f : State S (Option Error)) : S → Option Error × S → Type 0 where
  stopped : {s : S} → Runs f s (some err_stopped, s)
  last : {s : S} {r : Option Error × S} → f s ≡ r → Runs f s r
  again :
      {s s' : S} {r : Option Error × S} (e : Error) → f s ≡ (some e, s') → Runs f s' r → Runs f s r

pub record Retrier (S : Type 0) : Type 0 where
  pub do_with_retry : State S (Option Error) → State S (Option Error)
  pub runs : (f : State S (Option Error)) (s : S) → Runs f s (do_with_retry f s)
