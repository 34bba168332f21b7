-- ===== src/Outbox.antt =====
-- What the clients of the chains share: the calls of a chain's nodes, and what was handed to them to be
-- executed. The nodes answer by the number of the calls made before.
pub mod Ensures
pub mod Triples
use relayer_svc.Base.{ℕ, ◌+◌, Option, none, some, List, State, case_option}
use relayer_svc.Types.{Error, err_chain, err_panic, ok, err}
use relayer_svc.Retry.{Retrier}
use relayer_svc.Attempt.{Attempt}

-- What was handed to the nodes, the latest first, and the number of calls made.
pub record Outbox (C : Type 0) : Type 0 where
  pub sent : List C
  pub calls : ℕ

module _ {C : Type 0} where
  abbrev pub tick : Outbox C → Outbox C
  tick w = record w { calls = w.calls + 1 }

  -- A call of a node.
  unfoldable pub ask : {A : Type 0} → (ℕ → Option A) → Attempt (Outbox C) A
  ask f w = (case_option (f w.calls) (err err_chain) ok, tick w)

  -- A closure that writes its variable from a call of a node, for `DoWithRetry`.
  unfoldable pub ask_again :
      {A : Type 0} → (ℕ → Option A) → State (Option A × Outbox C) (Option Error)
  ask_again f (v, w) = (case_option (f w.calls) (some err_chain) (λ a. none), (f w.calls, tick w))

  -- What the variable holds once `DoWithRetry` has returned.
  unfoldable pub with_retry :
      {A : Type 0} → Retrier (Option A × Outbox C) → (ℕ → Option A) → Attempt (Outbox C) A
  unfolding ask_again
  with_retry r f w =
      let (e, (v, w')) = r.do_with_retry (ask_again f) (none, w) in
      (case_option e (case_option v (err err_panic) ok) err, w')
