-- ===== src/Ton/Withdraw.antt =====
-- The withdrawals of internal/core/chain/ton/{client,native,jetton,withdrawal,child_client}.go.
use relayer_svc.Base.{
  ℕ, ℤ, pos, String, str_eq, false, Option, none, some, List, [], ◌∷◌, State, case_option,
  if◌then◌else◌,
}
use relayer_svc.Types.{err_chain, err_panic, Result, ok, err, case_result}
use relayer_svc.Db.{Deposit}
use relayer_svc.Attempt.{Attempt, pure, ◌>>=◌}
use relayer_svc.Chain.{Bytes, default_native_token_address}
use relayer_svc.Outbox.{tick, ask}
use relayer_svc.Evm.Withdraw.{Sent, pick}
use relayer_svc.Ton.{Message, Client, Wire}
use relayer_svc.Ton.Cells.{build_withdraw_native_cell, build_withdraw_jetton_cell}

-- `SendManyWaitTxHash`, for one message.
unfoldable pub send : Client → Message → Bytes → Attempt Wire Bytes
send c m signer w = (
  case_option (c.node.send_many_wait_tx_hash w.calls signer m) (err err_chain) ok,
  record (tick w) { sent = m ∷ w.sent },
)

-- The message of a withdrawal.
unfoldable pub withdrawal_message : Client → Option Bytes → Message
withdrawal_message c body = record {
  bounce = false;
  destination = c.bridge_contract_address;
  amount = 1500000000;
  body = body;
}

-- `withdraw` of withdrawal.go
unfoldable pub send_withdrawal : Client → Option Bytes → Bytes → Attempt Wire String
unfolding send withdrawal_message
send_withdrawal c body signer = do
  hash ← send c (withdrawal_message c body) signer
  pure (c.toolkit.encode_hex hash)

-- A body that is ready to be sent, and the block that is reported.
abbrev pub Prepared : Type 0
Prepared = Option Bytes × ℤ

-- `withdrawNative`, up to the sending.
unfoldable pub prepare_native : Client → Deposit → Attempt Wire Prepared
unfolding build_withdraw_native_cell ask
prepare_native c d = do
  body ← build_withdraw_native_cell c d
  block ← ask c.node.masterchain_info
  pure (some body, pos block)

-- `withdrawToken`, up to the sending.
unfoldable pub prepare_token : Client → Deposit → Attempt Wire Prepared
unfolding build_withdraw_jetton_cell ask
prepare_token c d = do
  body ← build_withdraw_jetton_cell c d
  block ← ask c.node.masterchain_info
  pure (body, pos block)

unfoldable pub prepare : Client → Deposit → Attempt Wire Prepared
unfolding prepare_native prepare_token
prepare c d =
    if str_eq d.withdrawal_token default_native_token_address
    then prepare_native c d
    else prepare_token c d

-- The end of both functions.
unfoldable pub run_withdraw : Client → Bytes → Result Prepared × Wire → Sent × Wire
unfolding send_withdrawal
run_withdraw c signer (err e, w) = (("", pos 0, some e), w)
run_withdraw c signer (ok p, w) =
    let (r, w') = send_withdrawal c p.0 signer w in
    (case_result r (λ hash. (hash, p.1, none)) (λ e. ("", p.1, some e)), w')

-- `Withdraw`, which reports the wallet's address too.
unfoldable pub withdraw : Client → Deposit → Bytes → State Wire (String × Sent)
unfolding prepare run_withdraw
withdraw c d signer w =
    let (sent, w') = run_withdraw c signer (prepare c d w) in
    ((c.toolkit.address_text signer, sent), w')

-- `ChildClient.Withdraw`, for the number that `rand.Intn` answers.
unfoldable pub child_withdraw : Client → List Bytes → ℕ → Deposit → State Wire (String × Sent)
unfolding withdraw pick
child_withdraw c [] n d w = (("", ("", pos 0, some err_chain)), w)
child_withdraw c (s ∷ ss) n d w =
    case_option (pick n (s ∷ ss)) (("", ("", pos 0, some err_panic)), w)
      λ signer. withdraw c d signer w
