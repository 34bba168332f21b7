-- ===== src/Evm/Finalize.antt =====
-- `finalize` of internal/core/chain/evm/withdraw.go, and the `finalizer` closures around it.
use relayer_svc.Base.{
  ℕ, ℤ, Bool, Option, none, some, List, [], ◌∷◌, ◌==◌, State, case_option, if◌then◌else◌,
}
use relayer_svc.Types.{Error, err_chain, err_skipped_finalization, Result, ok, err}
use relayer_svc.Db.Text.{text_eq}
use relayer_svc.Chain.{Bytes}
use relayer_svc.Evm.{
  Client, Wire, Delivery, no_receipt, receipt_fails, receipt_status, unavailable, receipts_fail,
  receipts,
}
use relayer_svc.Outbox.{tick, with_retry}

abbrev pub receipt_successful : ℕ
receipt_successful = 1

-- The verdict on a receipt's status.
unfoldable pub verdict : ℕ → Option Error
verdict status = if status == receipt_successful then none else some err_chain

-- The status of the first receipt of the transaction.
unfoldable pub find_receipt : Bytes → List (Bytes × ℕ) → Option ℕ
find_receipt hash [] = none
find_receipt hash ((h, status) ∷ rs) =
    let rest = find_receipt hash rs in if text_eq h hash then some status else rest

-- The deadline has passed: the last word is the transaction's receipt.
unfoldable pub at_deadline : Client → Bytes → State Wire (Option Error)
unfolding verdict
at_deadline c hash w = (
  elim (c.node.transaction_receipt w.calls hash) [
    | no_receipt ↦ some err_chain
    | receipt_fails ↦ some err_chain
    | receipt_status status ↦ verdict status
  ],
  tick w,
)

-- The loop over the events of the subscription.
unfoldable pub follow : Client → Bytes → Bool → List ℤ → State Wire (Option Error)
unfolding at_deadline find_receipt verdict
follow c hash closes [] w = if closes then (some err_chain, w) else at_deadline c hash w
follow c hash closes (number ∷ numbers) w =
    let rest = follow c hash closes numbers (tick w) in
    elim (c.node.block_receipts w.calls number) [
      | unavailable ↦ (some err_skipped_finalization, tick w)
      | receipts_fail ↦ (some err_chain, tick w)
      | receipts rs ↦ case_option (find_receipt hash rs) rest λ status. (verdict status, tick w)
    ]

unfoldable pub follow_subscription : Client → Bytes → Result Delivery × Wire → Option Error × Wire
unfolding follow
follow_subscription c hash (err e, w) = (some e, w)
follow_subscription c hash (ok d, w) = follow c hash d.closes d.headers w

unfoldable pub finalize : Client → Bytes → State Wire (Option Error)
unfolding follow_subscription with_retry
finalize c hash w =
    follow_subscription c hash (with_retry c.retry_subscription c.node.subscribe_new_head w)

-- A skipped finalization counts as done.
unfoldable pub unless_skipped : Option Error → Option Error
unless_skipped (some err_skipped_finalization) = none
unless_skipped e = e

-- The closure `finalizer`.
unfoldable pub finalizer : Client → Bytes → State Wire (Option Error)
unfolding finalize unless_skipped
finalizer c hash w = let (e, w') = finalize c hash w in (unless_skipped e, w')
