-- ===== src/Ton/Signers.antt =====
-- `UpdateSigners` of internal/core/chain/ton/{signer,child_client}.go.
use relayer_svc.Base.{ℕ, ℤ, pos, String, true, none, some, List, [], ◌∷◌, case_option}
use relayer_svc.Types.{err_chain, err_panic}
use relayer_svc.Db.{Epoch}
use relayer_svc.Attempt.{Attempt, pure, ◌>>=◌, or_raise}
use relayer_svc.Chain.{Bytes}
use relayer_svc.Outbox.{ask}
use relayer_svc.Evm.Withdraw.{pick}
use relayer_svc.Ton.{Client, Wire}
use relayer_svc.Ton.Cells.{build_update_signer_cell}
use relayer_svc.Ton.Withdraw.{send}

-- `UpdateSigners`
unfoldable pub update_signers : Client → Epoch → Bytes → Attempt Wire (String × ℤ)
unfolding build_update_signer_cell ask send
update_signers c e signer = do
  cell ← build_update_signer_cell c e
  block ← ask c.node.masterchain_info
  hash ←
      send c
        (record {
          bounce = true;
          destination = c.bridge_contract_address;
          amount = 200000000;
          body = some cell;
        })
        signer
  pure (c.toolkit.encode_hex hash, pos block)

-- `ChildClient.UpdateSigners`, for the number that `rand.Intn` answers.
unfoldable pub child_update_signers : Client → List Bytes → ℕ → Epoch → Attempt Wire (String × ℤ)
unfolding update_signers pick
child_update_signers c [] n e = or_raise err_chain none
child_update_signers c (s ∷ ss) n e =
    case_option (pick n (s ∷ ss)) (or_raise err_panic none) (update_signers c e)
