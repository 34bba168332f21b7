-- ===== src/Evm/Withdraw.antt =====
-- The withdrawals of internal/core/chain/evm/withdraw.go, signer.go and child_client.go.
use relayer_svc.Base.{
  ℕ, zero, suc, ℤ, pos, String, str_eq, not, ◌&&◌, Option, none, some, List, [], ◌∷◌, State,
  case_option, if◌then◌else◌,
}
use relayer_svc.Types.{Error, err_chain, err_parse, err_panic, Result, ok, err}
use relayer_svc.Db.{Deposit}
use relayer_svc.Attempt.{Attempt, pure, ◌>>=◌, or_raise}
use relayer_svc.Chain.{Bytes, default_native_token_address, set_string}
use relayer_svc.Evm.{
  Call, call_native, call_erc20, call_erc20_merkelized, call_native_merkelized, TransactOpts,
  Client, Wire, prepare_tx_opts, get_block_with_retry,
}
use relayer_svc.Outbox.{tick}
use relayer_svc.Evm.Data.{
  tx_hash_to_bytes32, merkle_proof_parsing, get_withdrawal_tx_data, get_withdrawal_tx_hash,
  withdraw_erc20, withdraw_native, withdraw_erc20_merkelized, withdraw_native_merkelized,
}
use relayer_svc.Evm.Finalize.{finalizer}

-- What a withdrawal function returns: a hash, a block and an error, each beside the others.
abbrev pub Sent : Type 0
Sent = String × ℤ × Option Error

-- A call of the contract that is ready to be sent, with the hash and the block that are reported
-- if it fails.
pub record Prepared : Type 0 where
  pub opts : TransactOpts
  pub call : Call
  pub hash : String
  pub block : ℤ

-- The amount and the signature of the deposit.
unfoldable pub read_fields : Client → Deposit → Attempt Wire (ℤ × Bytes)
read_fields c d = do
  amount ← or_raise err_parse (set_string d.withdrawal_amount)
  signature ← or_raise err_parse (c.ethereum.decode_hex d.signature)
  pure (amount, signature)

-- What the four functions have before they send: options, parsed fields, a hash and a block.
pub record Ready : Type 0 where
  pub opts : TransactOpts
  pub amount : ℤ
  pub signature : Bytes
  pub hash : String
  pub block : ℤ

-- The lines that the four functions begin with, for the name of the method.
unfoldable pub make_ready : Client → String → Deposit → Bytes → Attempt Wire Ready
unfolding read_fields
make_ready c method d from = do
  payload ← or_raise err_parse (get_withdrawal_tx_data c.ethereum method d)
  opts ← prepare_tx_opts c payload from
  (amount, signature) ← read_fields c d
  hash ← or_raise err_chain (get_withdrawal_tx_hash c opts payload)
  block ← get_block_with_retry c
  pure (record { opts = opts; amount = amount; signature = signature; hash = hash; block = block })

abbrev pub with_call : Ready → Call → Prepared
with_call r call = record { opts = r.opts; call = call; hash = r.hash; block = r.block }

-- `withdrawNative`, up to the call of the contract.
unfoldable pub prepare_native : Client → Deposit → Bytes → Attempt Wire Prepared
unfolding make_ready
prepare_native c d from = do
  r ← make_ready c withdraw_native d from
  pure (
      with_call r (
        call_native r.amount (c.ethereum.hex_to_address d.receiver)
          (tx_hash_to_bytes32 c.ethereum d.tx_hash) d.tx_nonce (r.signature ∷ [])))

-- `withdrawToken`, up to the call of the contract.
unfoldable pub prepare_token : Client → Deposit → Bytes → Attempt Wire Prepared
unfolding make_ready
prepare_token c d from = do
  r ← make_ready c withdraw_erc20 d from
  pure (
      with_call r (
        call_erc20 (c.ethereum.hex_to_address d.withdrawal_token) r.amount
          (c.ethereum.hex_to_address d.receiver) (tx_hash_to_bytes32 c.ethereum d.tx_hash)
          d.tx_nonce d.is_wrapped_token (r.signature ∷ [])))

-- `withdrawERC20Merkelized`, up to the call of the contract.
unfoldable pub prepare_erc20_merkelized : Client → Deposit → Bytes → Attempt Wire Prepared
unfolding make_ready
prepare_erc20_merkelized c d from = do
  r ← make_ready c withdraw_erc20_merkelized d from
  proof ← or_raise err_parse (merkle_proof_parsing c.ethereum d.merkle_proof)
  pure (
      with_call r (
        call_erc20_merkelized (c.ethereum.hex_to_address d.withdrawal_token) r.amount
          (c.ethereum.hex_to_address d.receiver) (tx_hash_to_bytes32 c.ethereum d.tx_hash)
          d.tx_nonce d.is_wrapped_token proof (r.signature ∷ [])))

-- `withdrawNativeMerkelized`, up to the call of the contract.
unfoldable pub prepare_native_merkelized : Client → Deposit → Bytes → Attempt Wire Prepared
unfolding make_ready
prepare_native_merkelized c d from = do
  r ← make_ready c withdraw_native_merkelized d from
  proof ← or_raise err_parse (merkle_proof_parsing c.ethereum d.merkle_proof)
  pure (
      with_call r (
        call_native_merkelized r.amount (c.ethereum.hex_to_address d.receiver)
          (tx_hash_to_bytes32 c.ethereum d.tx_hash) d.tx_nonce proof (r.signature ∷ [])))

-- `getWithdrawFunc`
unfoldable pub get_withdraw_func : Deposit → Client → Deposit → Bytes → Attempt Wire Prepared
get_withdraw_func d =
    let is_native = str_eq d.withdrawal_token default_native_token_address in
    let is_merkelized = not (str_eq d.merkle_proof "") in
    if is_native && is_merkelized
    then prepare_native_merkelized
    else if is_native && not is_merkelized
    then prepare_native
    else if not is_native && is_merkelized
    then prepare_erc20_merkelized
    else prepare_token

-- The call of the contract, which sends a transaction.
unfoldable pub transact : Client → TransactOpts → Call → State Wire (Option Bytes)
transact c opts call w =
    (c.node.transact w.calls opts call, record (tick w) { sent = call ∷ w.sent })

-- The transaction was sent: it is waited for, again and again.
unfoldable pub await : Client → Prepared → Bytes → State Wire Sent
await c p hash w =
    let (e, w') = c.retry_finalizer.do_with_retry (finalizer c hash) w in
    (case_option e (c.ethereum.hash_text hash, p.block, none) (λ x. (p.hash, p.block, some x)), w')

-- The part that the four functions end with.
unfoldable pub submit : Client → Prepared → State Wire Sent
unfolding transact await
submit c p w =
    let (answer, w') = transact c p.opts p.call w in
    case_option answer ((p.hash, p.block, some err_chain), w') λ hash. await c p hash w'

unfoldable pub run_withdraw : Client → Result Prepared × Wire → Sent × Wire
unfolding submit
run_withdraw c (err e, w) = (("", pos 0, some e), w)
run_withdraw c (ok p, w) = submit c p w

-- `Withdraw`, which reports the operator too.
unfoldable pub withdraw : Client → Deposit → Bytes → State Wire (String × Sent)
unfolding get_withdraw_func run_withdraw
withdraw c d from w =
    let (sent, w') = run_withdraw c (get_withdraw_func d c d from w) in
    ((c.ethereum.address_text from, sent), w')

-- The signer that a child client picks at random, by its number.
unfoldable pub pick : ℕ → List Bytes → Option Bytes
pick n [] = none
pick zero (s ∷ ss) = some s
pick (suc n) (s ∷ ss) = pick n ss

-- `ChildClient.Withdraw`, for the number that `rand.Intn` answers.
unfoldable pub child_withdraw : Client → List Bytes → ℕ → Deposit → State Wire (String × Sent)
unfolding withdraw pick
child_withdraw c [] n d w = (("", ("", pos 0, some err_chain)), w)
child_withdraw c (s ∷ ss) n d w =
    case_option (pick n (s ∷ ss)) (("", ("", pos 0, some err_panic)), w) λ from. withdraw c d from w
