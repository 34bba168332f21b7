-- ===== src/Evm/Finality.antt =====
-- When an EVM withdrawal is reported as done.
use relayer_svc.Base.{
  ◌+◌, ℕ, ℤ, ◌≡◌, ◌≢◌, refl, ◌⊎◌, inl, inr, String, Bool, true, false, Option, none, some, List, [],
  ◌∷◌, arith, ◌∙◌, ap, subst, case_option, Option-cases,
}
use relayer_svc.Types.{
  Error, err_chain, err_panic, err_skipped_finalization, Result, ok, err, case_result,
}
use relayer_svc.Db.{Deposit}
use relayer_svc.Retry.{Runs, Retrier, stopped, last, again}
use relayer_svc.Chain.{Bytes}
use relayer_svc.Evm.{
  TransactOpts, Call, Client, Wire, Delivery, receipt_status, unavailable, receipts, ReceiptAnswer,
  no_receipt, receipt_fails, BlockReceipts, receipts_fail,
}
use relayer_svc.Outbox.{tick, with_retry, ask_again}
use relayer_svc.Evm.Finalize.{
  finalizer, finalize, follow_subscription, follow, at_deadline, unless_skipped, find_receipt,
  verdict,
}
use relayer_svc.Evm.Sends.{sent-submit, get_withdraw_func-IsExpected}
use relayer_svc.Evm.Withdraw.{
  Sent, Prepared, withdraw, run_withdraw, submit, await, transact, get_withdraw_func,
}

-- In the last of this many calls, the node showed a successful receipt of the transaction, by itself or in a
-- block, or said that it has no receipts of blocks.
abbrev pub IsFinal : Client → Bytes → ℕ → Type 0
IsFinal c hash calls =
    (n : ℕ) × (calls ≡ n + 1)
    × ((c.node.transaction_receipt n hash ≡ receipt_status 1)
        ⊎ ((b : ℤ) × (rs : List (Bytes × ℕ)) × (c.node.block_receipts n b ≡ receipts rs)
            × (find_receipt hash rs ≡ some 1))
        ⊎ ((b : ℤ) × (c.node.block_receipts n b ≡ unavailable)))

-- The contract's binding answered the call with this hash.
abbrev pub IsAnswered : Client → Call → Bytes → Type 0
IsAnswered c call hash = (m : ℕ) × (opts : TransactOpts) × (c.node.transact m opts call ≡ some hash)

-- One call was handed to the contract's binding, which answered it with this hash.
abbrev pub IsOnlyAnswer : Client → List Call → List Call → Bytes → Type 0
IsOnlyAnswer c before after hash = (call : Call) × (after ≡ call ∷ before) × IsAnswered c call hash

verdict_one : (status : ℕ) → verdict status ≡ none → status ≡ 1
unfolding verdict
verdict_one status h = ground arith

at_deadline-IsFinal :
    (c : Client) (hash : Bytes) (w : Wire)
    → (at_deadline c hash w).0 ≡ none
    → IsFinal c hash (at_deadline c hash w).1.calls
unfolding at_deadline
at_deadline-IsFinal c hash w h = go (c.node.transaction_receipt w.calls hash) refl h
  where
    go :
        (answer : ReceiptAnswer)
        → c.node.transaction_receipt w.calls hash ≡ answer
        → elim answer [
          | no_receipt ↦ some err_chain
          | receipt_fails ↦ some err_chain
          | receipt_status status ↦ verdict status
        ]
          ≡ none
        → IsFinal c hash (w.calls + 1)
    go no_receipt e k = absurd (ground (arith, k))
    go receipt_fails e k = absurd (ground (arith, k))
    go (receipt_status status) e k =
        (w.calls, refl, inl (e ∙ ap receipt_status (verdict_one status k)))

-- What the loop does with a block's receipts, before the blocks that follow.
abbrev step_of : Bytes → BlockReceipts → Option Error × Wire → Wire → Option Error × Wire
step_of hash answer rest w = elim answer [
  | unavailable ↦ (some err_skipped_finalization, w)
  | receipts_fail ↦ (some err_chain, w)
  | receipts rs ↦ case_option (find_receipt hash rs) rest λ status. (verdict status, w)
]

unless_skipped-at_deadline :
    (c : Client) (hash : Bytes) (w : Wire)
    → unless_skipped (at_deadline c hash w).0 ≡ none
    → (at_deadline c hash w).0 ≡ none
unfolding at_deadline unless_skipped verdict
unless_skipped-at_deadline c hash w h = ground arith

step_of-IsFinal :
    (c : Client) (hash : Bytes) (b : ℤ) (answer : BlockReceipts) (rest : Option Error × Wire)
    (w : Wire)
    → c.node.block_receipts w.calls b ≡ answer
    → (unless_skipped rest.0 ≡ none → IsFinal c hash rest.1.calls)
    → unless_skipped (step_of hash answer rest (tick w)).0 ≡ none
    → IsFinal c hash (step_of hash answer rest (tick w)).1.calls
unfolding unless_skipped
step_of-IsFinal c hash b unavailable rest w e ih h = (w.calls, refl, inr (inr (b, e)))
step_of-IsFinal c hash b receipts_fail rest w e ih h = absurd (ground (arith, h))
step_of-IsFinal c hash b (receipts rs) rest w e ih h = go (find_receipt hash rs) refl h
  where
    go :
        (o : Option ℕ)
        → find_receipt hash rs ≡ o
        → unless_skipped (case_option o rest λ status. (verdict status, tick w)).0 ≡ none
        → IsFinal c hash (case_option o rest λ status. (verdict status, tick w)).1.calls
    go none q k = ih k
    go (some status) q k = (
      w.calls,
      refl,
      inr (inl (b, rs, e, q ∙ ap some (verdict_one status (unfold verdict in ground (arith, k))))),
    )

follow-IsFinal :
    (c : Client) (hash : Bytes) (closes : Bool) (numbers : List ℤ) (w : Wire)
    → unless_skipped (follow c hash closes numbers w).0 ≡ none
    → IsFinal c hash (follow c hash closes numbers w).1.calls
unfolding follow
follow-IsFinal c hash true [] w h = absurd (unfold unless_skipped in ground (arith, h))
follow-IsFinal c hash false [] w h =
    at_deadline-IsFinal c hash w (unless_skipped-at_deadline c hash w h)
follow-IsFinal c hash closes (b ∷ bs) w h =
    step_of-IsFinal c hash b (c.node.block_receipts w.calls b) (follow c hash closes bs (tick w)) w
      refl (follow-IsFinal c hash closes bs (tick w)) h

follow_subscription-IsFinal :
    (c : Client) (hash : Bytes) (r : Result Delivery × Wire)
    → unless_skipped (follow_subscription c hash r).0 ≡ none
    → case_result r.0 (λ d. Unit {0}) (λ e. unless_skipped (some e) ≢ none)
    → IsFinal c hash (follow_subscription c hash r).1.calls
unfolding follow_subscription
follow_subscription-IsFinal c hash (ok d, w) h k = follow-IsFinal c hash d.closes d.headers w h
follow_subscription-IsFinal c hash (err e, w) h k = absurd (k h)

abbrev NotSkipped : Option Error → Type 0
NotSkipped none = Unit
NotSkipped (some e) = unless_skipped (some e) ≢ none

Runs-NotSkipped :
    {A : Type 0} (f : ℕ → Option A) {s : Option A × Wire} {r : Option Error × (Option A × Wire)}
    → Runs (ask_again f) s r
    → NotSkipped r.0
unfolding ask_again unless_skipped
Runs-NotSkipped f stopped = λ q. cc q
Runs-NotSkipped {A} f {s = (v, w)} (last e) =
    subst (λ (x : Option Error × (Option A × Wire)). NotSkipped x.0) e (go (f w.calls))
  where
    go : (o : Option A) → NotSkipped (case_option o (some err_chain) (λ a. none))
    go none = λ q. cc q
    go (some a) = tt
Runs-NotSkipped f (again e h more) = Runs-NotSkipped f more

with_retry-NotSkipped :
    {A : Type 0} (r : Retrier (Option A × Wire)) (f : ℕ → Option A) (w : Wire)
    → case_result (with_retry r f w).0 (λ a. Unit {0}) (λ e. unless_skipped (some e) ≢ none)
unfolding with_retry unless_skipped
with_retry-NotSkipped {A} r f w =
    go (r.do_with_retry (ask_again f) (none, w))
      (Runs-NotSkipped f (r.runs (ask_again f) (none, w)))
  where
    go :
        (x : Option Error × (Option A × Wire))
        → NotSkipped x.0
        → case_result
            (case_option x.0 (case_option x.1.0 (err err_panic) ok) err)
            (λ a. Unit {0})
            (λ e. unless_skipped (some e) ≢ none)
    go (none, (none, w')) h = λ q. cc q
    go (none, (some a, w')) h = tt
    go (some e, v) h = h

finalizer-IsFinal :
    (c : Client) (hash : Bytes) (w : Wire)
    → (finalizer c hash w).0 ≡ none
    → IsFinal c hash (finalizer c hash w).1.calls
unfolding finalizer finalize
finalizer-IsFinal c hash w h =
    follow_subscription-IsFinal c hash (with_retry c.retry_subscription c.node.subscribe_new_head w)
      h (with_retry-NotSkipped c.retry_subscription c.node.subscribe_new_head w)

Runs-IsFinal :
    (c : Client) (hash : Bytes) {w : Wire} {r : Option Error × Wire}
    → Runs (finalizer c hash) w r
    → r.0 ≡ none
    → IsFinal c hash r.1.calls
Runs-IsFinal c hash stopped h = absurd (ground (arith, h))
Runs-IsFinal c hash {w} (last e) h =
    subst (λ (x : Option Error × Wire). IsFinal c hash x.1.calls) e
      (finalizer-IsFinal c hash w (ap (λ (x : Option Error × Wire). x.0) e ∙ h))
Runs-IsFinal c hash (again x e more) h = Runs-IsFinal c hash more h

-- What a withdrawal reports.
abbrev pub error_of : Sent → Option Error
error_of (hash, block, e) = e

abbrev pub hash_of : Sent → String
hash_of (hash, block, e) = hash

await-IsFinal :
    (c : Client) (p : Prepared) (hash : Bytes) (w : Wire)
    → error_of (await c p hash w).0 ≡ none
    → IsFinal c hash (await c p hash w).1.calls
      × (hash_of (await c p hash w).0 ≡ c.ethereum.hash_text hash)
unfolding await
await-IsFinal c p hash w h =
    let done : (c.retry_finalizer.do_with_retry (finalizer c hash) w).0 ≡ none =
      ground (arith, h) in
    (Runs-IsFinal c hash (c.retry_finalizer.runs (finalizer c hash) w) done, ground (arith, done))

submit-IsFinal :
    (c : Client) (p : Prepared) (w : Wire)
    → error_of (submit c p w).0 ≡ none
    → (hash : Bytes) × IsOnlyAnswer c w.sent (submit c p w).1.sent hash
      × IsFinal c hash (submit c p w).1.calls
      × (hash_of (submit c p w).0 ≡ c.ethereum.hash_text hash)
unfolding submit transact
submit-IsFinal c p w h = elim (Option-cases (c.node.transact w.calls p.opts p.call)) [
  | inl e ↦ absurd (ground (arith, e, h))
  | inr (hash, e) ↦
      let sent : Wire = record (tick w) { sent = p.call ∷ w.sent } in
      let (final, text) = await-IsFinal c p hash sent (ground (arith, e, h)) in
      (
        hash,
        (p.call, sent-submit c p w, (w.calls, p.opts, e)),
        subst (λ x. IsFinal c hash x) (ground (arith, e)) final,
        ground (arith, e, text),
      )
]

-- `Withdraw` reports success only after it handed one call to the contract's binding, with the hash of the
-- transaction that the binding answered this call with, and whose end the last call of a node showed: a successful receipt of the transaction, by itself or in
-- a block, or the answer that the node has no receipts of blocks.
pub withdraw-IsFinal :
    (c : Client) (d : Deposit) (from : Bytes) (w : Wire)
    → error_of (withdraw c d from w).0.1 ≡ none
    → (hash : Bytes) × IsOnlyAnswer c w.sent (withdraw c d from w).1.sent hash
      × IsFinal c hash (withdraw c d from w).1.calls
      × (hash_of (withdraw c d from w).0.1 ≡ c.ethereum.hash_text hash)
unfolding withdraw run_withdraw
withdraw-IsFinal c d from w h =
    go (get_withdraw_func d c d from w) (get_withdraw_func-IsExpected c d from w).0 h
  where
    go :
        (r : Result Prepared × Wire)
        → r.1.sent ≡ w.sent
        → error_of (run_withdraw c r).0 ≡ none
        → (hash : Bytes) × IsOnlyAnswer c w.sent (run_withdraw c r).1.sent hash
          × IsFinal c hash (run_withdraw c r).1.calls
          × (hash_of (run_withdraw c r).0 ≡ c.ethereum.hash_text hash)
    go (ok p, w') q k =
        let (hash, (call, one, a), final, text) = submit-IsFinal c p w' k in
        (hash, (call, one ∙ ap (λ x. call ∷ x) q, a), final, text)
    go (err e, w') q k = absurd (ground (arith, k))
