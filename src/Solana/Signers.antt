-- ===== src/Solana/Signers.antt =====
-- `UpdateSigners` of internal/core/chain/solana/{signer,child_client}.go.
use relayer_svc.Base.{ℕ, ℤ, pos, to_int64, String, none, some, List, [], ◌∷◌, State, case_option}
use relayer_svc.Types.{err_chain, err_panic, err_parse, Result, ok, err}
use relayer_svc.Db.{Epoch}
use relayer_svc.Attempt.{Attempt, pure, ◌>>=◌, or_raise}
use relayer_svc.Observer.Numbers.{parse_uint}
use relayer_svc.Chain.{Bytes}
use relayer_svc.Evm.Withdraw.{Sent, pick}
use relayer_svc.Solana.{update_signer, Client, Wire}
use relayer_svc.Solana.Data.{copied, authority_of, parse_signature_and_signer}
use relayer_svc.Solana.Withdraw.{Prepared, get_latest_block_with_retry, send_tx}

unfoldable pub prepare_update : Client → Epoch → Bytes → Attempt Wire Prepared
unfolding get_latest_block_with_retry parse_signature_and_signer authority_of
prepare_update c e signer = do
  (sig, recovery_id, key) ←
      or_raise err_parse (parse_signature_and_signer c.toolkit e.signature e.signer)
  nonce ← or_raise err_parse (parse_uint 64 e.nonce)
  authority ← or_raise err_parse (authority_of c)
  block ← get_latest_block_with_retry c
  pure (
    update_signer c.bridge_id e.signature_mode (copied 33 key) (to_int64 e.start_time)
        (to_int64 e.end_time) nonce sig recovery_id authority signer,
    block,
  )

-- The instruction is sent; the signature of one that is not confirmed is dropped.
unfoldable pub submit_update : Client → Bytes → Result Prepared × Wire → Sent × Wire
unfolding send_tx
submit_update c signer (err e, w) = (("", pos 0, some e), w)
submit_update c signer (ok p, w) =
    let (r, w') = send_tx c p.0 signer w in
    (case_option r.1 (case_option r.0 "" (λ s. s), p.1, none) (λ e. ("", p.1, some e)), w')

-- `UpdateSigners`
unfoldable pub update_signers : Client → Epoch → Bytes → State Wire Sent
unfolding prepare_update submit_update
update_signers c e signer w = submit_update c signer (prepare_update c e signer w)

-- `ChildClient.UpdateSigners`, for the number that `rand.Intn` answers; a failure has no block.
unfoldable pub child_update_signers : Client → List Bytes → ℕ → Epoch → Attempt Wire (String × ℤ)
unfolding update_signers pick
child_update_signers c [] n e w = (err err_chain, w)
child_update_signers c (s ∷ ss) n e w =
    case_option (pick n (s ∷ ss)) (err err_panic, w)
      λ signer.
        let ((hash, block, failed), w') = update_signers c e signer w in
        (case_option failed (ok (hash, block)) err, w')
