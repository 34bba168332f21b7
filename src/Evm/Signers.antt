-- ===== src/Evm/Signers.antt =====
-- `UpdateSigners` of internal/core/chain/evm/signer.go and child_client.go.
use relayer_svc.Base.{ℕ, ℤ, String, none, List, [], ◌∷◌, ◌==◌, case_option, if◌then◌else◌}
use relayer_svc.Types.{err_chain, err_parse, err_panic, ok, err}
use relayer_svc.Db.{Epoch}
use relayer_svc.Attempt.{Attempt, pure, ◌>>=◌, or_raise}
use relayer_svc.Chain.{Bytes, set_string}
use relayer_svc.Evm.{Call, call_update_signer, Client, Wire, prepare_tx_opts, get_block_with_retry}
use relayer_svc.Outbox.{ask}
use relayer_svc.Evm.Withdraw.{transact, pick}

abbrev pub receipt_success : ℕ
receipt_success = 1

-- The call that the epoch asks for.
unfoldable pub update_signer_call : Client → Epoch → Bytes → ℤ → Call
update_signer_call c e signature nonce =
    call_update_signer (c.ethereum.hex_to_address e.signer) e.start_time e.end_time nonce
      e.signature_mode (signature ∷ [])

-- The binding's call, whose failure is an error.
unfoldable pub send : Client → Epoch → Bytes → ℤ → Bytes → Attempt Wire (Bytes × ℤ)
unfolding transact update_signer_call
send c e signature nonce from = do
  payload ←
      or_raise err_parse (c.ethereum.pack "updateSigner" (update_signer_call c e signature nonce))
  opts ← prepare_tx_opts c payload from
  block ← get_block_with_retry c
  hash ← λ w.
      let (answer, w') = transact c opts (update_signer_call c e signature nonce) w in
      (case_option answer (err err_chain) ok, w')
  pure (hash, block)

-- `UpdateSigners`
unfoldable pub update_signers : Client → Epoch → Bytes → Attempt Wire (String × ℤ)
unfolding send
update_signers c e from = do
  signature ← or_raise err_parse (c.ethereum.decode_hex e.signature)
  nonce ← or_raise err_parse (set_string e.nonce)
  (hash, block) ← send c e signature nonce from
  status ← ask λ n. c.node.wait_mined n hash
  if status == receipt_success
      then pure (c.ethereum.hash_text hash, block)
      else or_raise err_chain none

-- `ChildClient.UpdateSigners`, for the number that `rand.Intn` answers.
unfoldable pub child_update_signers : Client → List Bytes → ℕ → Epoch → Attempt Wire (String × ℤ)
unfolding update_signers pick
child_update_signers c [] n e = or_raise err_chain none
child_update_signers c (s ∷ ss) n e =
    case_option (pick n (s ∷ ss)) (or_raise err_panic none) (update_signers c e)
