-- ===== src/Solana/Withdraw.antt =====
-- The withdrawals of internal/core/chain/solana/{withdraw,spl,wrapped,vault,child_client}.go, and
-- `SendTx` and `IsProcessed` of client.go.
use relayer_svc.Base.{
  ℕ, ℤ, pos, to_int64, String, str_eq, Bool, true, false, Option, none, some, List, [], ◌∷◌, State,
  case_option, if◌then◌else◌,
}
use relayer_svc.Types.{Error, err_chain, err_panic, err_parse, Result, ok, err, case_result}
use relayer_svc.Db.{Deposit}
use relayer_svc.Attempt.{Attempt, pure, ◌>>=◌, or_raise}
use relayer_svc.Chain.{Bytes, bytes_of, default_native_token_address}
use relayer_svc.Outbox.{tick, ask, with_retry}
use relayer_svc.Evm.Withdraw.{Sent, pick}
use relayer_svc.Solana.{
  Instruction, withdraw_native, withdraw_spl, withdraw_wrapped, init_spl_vault, account, not_found,
  account_fails, Client, Wire,
}
use relayer_svc.Solana.Data.{get_withdrawal_context, get_withdrawal_hash, get_withdrawal_pda}
use relayer_svc.Solana.Metadata.{get_token_metadata}

-- The owner of an account that must exist.
unfoldable pub owner_of : Client → Bytes → Attempt Wire Bytes
owner_of c key w = (
  elim (c.node.account_info w.calls key) [
    | account owner ↦ ok owner
    | not_found ↦ err err_chain
    | account_fails ↦ err err_chain
  ],
  tick w,
)

-- `getLatestBlockWithRetry`
unfoldable pub get_latest_block_with_retry : Client → Attempt Wire ℤ
unfolding with_retry
get_latest_block_with_retry c = do
  latest ← with_retry c.retry_block c.node.latest_blockhash
  pure (to_int64 latest.1)

-- The transaction was signed: it is sent, and its signature is known whatever the node answers.
unfoldable pub confirm : Client → Instruction → String → State Wire (Option String × Option Error)
confirm c i signature w = (
  case_option (c.node.send_and_confirm w.calls i) (some signature, some err_chain)
      λ s. (some s, none),
  record (tick w) { sent = i ∷ w.sent },
)

-- `SendTx`, which returns a signature beside the error of a transaction that was sent.
unfoldable pub send_tx : Client → Instruction → Bytes → State Wire (Option String × Option Error)
unfolding ask confirm
send_tx c i wallet w =
    let (r, w') = ask c.node.latest_blockhash w in
    case_result r
      (λ recent.
        case_option (c.toolkit.sign_transaction i recent.0 wallet) ((none, some err_chain), w')
          λ signature. confirm c i signature w')
      λ e. ((none, some e), w')

-- The vault was not found: it is made, and the code then returns no vault and no error.
unfoldable pub init_vault : Client → Bytes → Bytes → Bytes → Bytes → Attempt Wire (Option Bytes)
unfolding send_tx
init_vault c token vault owner signer w =
    let (r, w') = send_tx c (init_spl_vault c.bridge_id token vault signer owner) signer w in
    (case_option r.1 (ok none) err, w')

-- The vault's account is looked up.
unfoldable pub check_vault : Client → Bytes → Bytes → Bytes → Bytes → Attempt Wire (Option Bytes)
unfolding init_vault
check_vault c token vault owner signer w =
    let made = init_vault c token vault owner signer (tick w) in
    elim (c.node.account_info w.calls vault) [
      | account _ ↦ (ok (some vault), tick w)
      | not_found ↦ made
      | account_fails ↦ (err err_chain, tick w)
    ]

-- `getSPLVault`
unfoldable pub get_spl_vault : Client → Deposit → Bytes → Attempt Wire (Option Bytes)
unfolding owner_of check_vault
get_spl_vault c d signer = do
  token ← or_raise err_parse (c.toolkit.public_key_from_base58 d.withdrawal_token)
  owner ← owner_of c token
  vault ←
      or_raise err_parse
        (c.toolkit.find_program_address (bytes_of "vault" ∷ token ∷ bytes_of c.bridge_id ∷ []))
  check_vault c token vault owner signer

-- An instruction that is ready to be sent, and the block that is reported.
abbrev pub Prepared : Type 0
Prepared = Instruction × ℤ

-- `withdrawNative`, up to the sending.
unfoldable pub prepare_native : Client → Deposit → Bytes → Attempt Wire Prepared
unfolding get_latest_block_with_retry
prepare_native c d signer = do
  x ← get_withdrawal_context c d
  block ← get_latest_block_with_retry c
  pure (withdraw_native x signer, block)

-- `withdrawSPL`, up to the sending: `*vault` panics if there is none.
unfoldable pub prepare_spl : Client → Deposit → Bytes → Attempt Wire Prepared
unfolding get_spl_vault owner_of get_latest_block_with_retry
prepare_spl c d signer = do
  x ← get_withdrawal_context c d
  pointer ← get_spl_vault c d signer
  owner ← owner_of c x.token
  vault ← or_raise err_panic pointer
  block ← get_latest_block_with_retry c
  pure (withdraw_spl x vault signer owner, block)

-- `withdrawWrapped`, up to the sending.
unfoldable pub prepare_wrapped : Client → Deposit → Bytes → Attempt Wire Prepared
unfolding get_latest_block_with_retry
prepare_wrapped c d signer = do
  x ← get_withdrawal_context c d
  t ← get_token_metadata c x.token
  block ← get_latest_block_with_retry c
  pure (withdraw_wrapped t.nonce t.symbol x signer, block)

-- `withdrawToken`, up to the sending.
unfoldable pub prepare_token : Client → Deposit → Bytes → Attempt Wire Prepared
unfolding owner_of
prepare_token c d signer = do
  receiver ← or_raise err_parse (c.toolkit.public_key_from_base58 d.receiver)
  owner ← owner_of c receiver
  if d.is_wrapped_token then prepare_wrapped c d signer else prepare_spl c d signer

unfoldable pub prepare : Client → Deposit → Bytes → Attempt Wire Prepared
prepare c d signer =
    if str_eq d.withdrawal_token default_native_token_address
    then prepare_native c d signer
    else prepare_token c d signer

-- The end of the three functions: no signature is an empty hash.
unfoldable pub submit : Client → Prepared → Bytes → State Wire Sent
unfolding send_tx
submit c p signer w =
    let (r, w') = send_tx c p.0 signer w in ((case_option r.0 "" (λ s. s), p.1, r.1), w')

unfoldable pub run_withdraw : Client → Bytes → Result Prepared × Wire → Sent × Wire
unfolding submit
run_withdraw c signer (err e, w) = (("", pos 0, some e), w)
run_withdraw c signer (ok p, w) = submit c p signer w

-- `Withdraw`, which reports the operator too.
unfoldable pub withdraw : Client → Deposit → Bytes → State Wire (String × Sent)
unfolding prepare run_withdraw
withdraw c d signer w =
    let (sent, w') = run_withdraw c signer (prepare c d signer w) in
    ((c.toolkit.key_text signer, sent), w')

-- `ChildClient.Withdraw`, for the number that `rand.Intn` answers.
unfoldable pub child_withdraw : Client → List Bytes → ℕ → Deposit → State Wire (String × Sent)
unfolding withdraw pick
child_withdraw c [] n d w = (("", ("", pos 0, some err_chain)), w)
child_withdraw c (s ∷ ss) n d w =
    case_option (pick n (s ∷ ss)) (("", ("", pos 0, some err_panic)), w)
      λ signer. withdraw c d signer w

-- Whether an account exists.
unfoldable pub exists_account : Client → Bytes → Attempt Wire Bool
exists_account c key w = (
  elim (c.node.account_info w.calls key) [
    | account _ ↦ ok true
    | not_found ↦ ok false
    | account_fails ↦ err err_chain
  ],
  tick w,
)

-- `IsProcessed`
unfoldable pub is_processed : Client → Deposit → Attempt Wire Bool
unfolding exists_account
is_processed c d = do
  hash ← or_raise err_parse (get_withdrawal_hash c d)
  pda ← or_raise err_parse (get_withdrawal_pda c hash)
  exists_account c pda
