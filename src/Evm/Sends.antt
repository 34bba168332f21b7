-- ===== src/Evm/Sends.antt =====
-- What an EVM client sends to the bridge contract for a withdrawal.
use relayer_svc.Base.{
  ℤ, ◌≡◌, refl, ◌⊎◌, inl, inr, ap, ◌∙◌, String, str_eq, Bool, true, false, Option, none, some, List,
  [], ◌∷◌, arith, case_option, if◌then◌else◌, Option-cases, Bool-cases,
}
use relayer_svc.Types.{Error, err_chain, err_parse, Result, ok, err, case_result}
use relayer_svc.Db.{Deposit}
use relayer_svc.Attempt.{◌>>=◌}
use relayer_svc.Chain.{Bytes, default_native_token_address, set_string}
use relayer_svc.Broadcaster.Batches.{Runs-keeps}
use relayer_svc.Outbox.Ensures.{
  SendsNothing, sent-with_retry, Ensures, Ensures-bind, Ensures-or_raise, Ensures-nothing,
  Ensures-pure,
}
use relayer_svc.Evm.{
  call_update_signer, Call, call_native, call_erc20, call_erc20_merkelized, call_native_merkelized,
  Client, Wire, Delivery, prepare_tx_opts, get_block_with_retry, Ethereum,
}
use relayer_svc.Outbox.{tick, ask, with_retry}
use relayer_svc.Evm.Data.{is_processed, tx_hash_to_bytes32, merkle_proof_parsing}
use relayer_svc.Evm.Finalize.{finalizer, finalize, follow_subscription, follow, at_deadline}
use relayer_svc.Evm.Withdraw.{
  Sent, Prepared, Ready, read_fields, make_ready, prepare_native, prepare_token,
  prepare_erc20_merkelized, prepare_native_merkelized, get_withdraw_func, transact, await, submit,
  run_withdraw, withdraw,
}

-- The call that a deposit stands for, from its fields alone: the method by the token and the proof, and
-- every argument.
unfoldable pub expected_call : Ethereum → Deposit → Option Call
expected_call eth d = case_option (set_string d.withdrawal_amount) none λ amount.
    case_option (eth.decode_hex d.signature) none λ signature.
      let receiver = eth.hex_to_address d.receiver in
      let token = eth.hex_to_address d.withdrawal_token in
      let hash = tx_hash_to_bytes32 eth d.tx_hash in
      let signatures = signature ∷ [] in
      if str_eq d.merkle_proof ""
      then some (
          if str_eq d.withdrawal_token default_native_token_address
          then call_native amount receiver hash d.tx_nonce signatures
          else call_erc20 token amount receiver hash d.tx_nonce d.is_wrapped_token signatures)
      else case_option (merkle_proof_parsing eth d.merkle_proof) none λ proof. some (
          if str_eq d.withdrawal_token default_native_token_address
          then call_native_merkelized amount receiver hash d.tx_nonce proof signatures
          else call_erc20_merkelized token amount receiver hash d.tx_nonce d.is_wrapped_token proof
              signatures)

pub sent-prepare_tx_opts :
    (c : Client) (payload from : Bytes) → SendsNothing (prepare_tx_opts c payload from)
unfolding prepare_tx_opts ask ◌>>=◌
sent-prepare_tx_opts c payload from w = ground arith

pub sent-get_block_with_retry : (c : Client) → SendsNothing (get_block_with_retry c)
unfolding get_block_with_retry
sent-get_block_with_retry c w = sent-with_retry c.retry_header c.node.header_number w

Ensures-read_fields :
    (c : Client) (d : Deposit)
    → Ensures
        (λ (x : ℤ × Bytes).
          (set_string d.withdrawal_amount ≡ some x.0)
          × (c.ethereum.decode_hex d.signature ≡ some x.1))
        (read_fields c d)
unfolding read_fields
Ensures-read_fields c d =
    Ensures-bind _ _ _ _ (Ensures-or_raise err_parse (set_string d.withdrawal_amount)) λ amount p.
      Ensures-bind _ _ _ _ (Ensures-or_raise err_parse (c.ethereum.decode_hex d.signature))
        λ signature q. Ensures-pure _ (amount, signature) (p, q)

Ensures-make_ready :
    (c : Client) (method : String) (d : Deposit) (from : Bytes)
    → Ensures
        (λ (r : Ready).
          (set_string d.withdrawal_amount ≡ some r.amount)
          × (c.ethereum.decode_hex d.signature ≡ some r.signature))
        (make_ready c method d from)
unfolding make_ready
Ensures-make_ready c method d from =
    Ensures-bind _ _ _ _ (Ensures-or_raise err_parse _) λ payload _.
      Ensures-bind _ _ (prepare_tx_opts c payload from) _
        (Ensures-nothing (prepare_tx_opts c payload from) (sent-prepare_tx_opts c payload from))
        λ opts _. Ensures-bind _ _ _ _ (Ensures-read_fields c d) λ fields p.
          Ensures-bind _ _ _ _ (Ensures-or_raise err_chain _) λ hash _.
            Ensures-bind _ _ (get_block_with_retry c) _
              (Ensures-nothing (get_block_with_retry c) (sent-get_block_with_retry c))
              λ block _. Ensures-pure _ _ p

module _ (c : Client) (d : Deposit) (from : Bytes) where
  abbrev IsExpected : Prepared → Type 0
  IsExpected p = expected_call c.ethereum d ≡ some p.call

  abbrev native : Bool
  native = str_eq d.withdrawal_token default_native_token_address

  abbrev bare : Bool
  bare = str_eq d.merkle_proof ""

  prepare_native-IsExpected :
      native ≡ true → bare ≡ true → Ensures IsExpected (prepare_native c d from)
  unfolding prepare_native expected_call
  prepare_native-IsExpected h k =
      Ensures-bind _ _ _ _ (Ensures-make_ready c _ d from)
        λ r p. Ensures-pure _ _ (ground (arith, p.0, p.1, h, k))

  prepare_token-IsExpected :
      native ≡ false → bare ≡ true → Ensures IsExpected (prepare_token c d from)
  unfolding prepare_token expected_call
  prepare_token-IsExpected h k =
      Ensures-bind _ _ _ _ (Ensures-make_ready c _ d from)
        λ r p. Ensures-pure _ _ (ground (arith, p.0, p.1, h, k))

  prepare_native_merkelized-IsExpected :
      native ≡ true → bare ≡ false → Ensures IsExpected (prepare_native_merkelized c d from)
  unfolding prepare_native_merkelized expected_call
  prepare_native_merkelized-IsExpected h k =
      Ensures-bind _ _ _ _ (Ensures-make_ready c _ d from) λ r p.
        Ensures-bind _ _ _ _
          (Ensures-or_raise err_parse (merkle_proof_parsing c.ethereum d.merkle_proof))
          λ proof q. Ensures-pure _ _ (ground (arith, p.0, p.1, q, h, k))

  prepare_erc20_merkelized-IsExpected :
      native ≡ false → bare ≡ false → Ensures IsExpected (prepare_erc20_merkelized c d from)
  unfolding prepare_erc20_merkelized expected_call
  prepare_erc20_merkelized-IsExpected h k =
      Ensures-bind _ _ _ _ (Ensures-make_ready c _ d from) λ r p.
        Ensures-bind _ _ _ _
          (Ensures-or_raise err_parse (merkle_proof_parsing c.ethereum d.merkle_proof))
          λ proof q. Ensures-pure _ _ (ground (arith, p.0, p.1, q, h, k))

  pub get_withdraw_func-IsExpected : Ensures IsExpected (get_withdraw_func d c d from)
  unfolding get_withdraw_func
  get_withdraw_func-IsExpected = elim (Bool-cases native) [
    | inl h ↦ elim (Bool-cases bare) [
      | inl k ↦ rw (h, k) (prepare_native-IsExpected h k)
      | inr k ↦ rw (h, k) (prepare_native_merkelized-IsExpected h k)
    ]
    | inr h ↦ elim (Bool-cases bare) [
      | inl k ↦ rw (h, k) (prepare_token-IsExpected h k)
      | inr k ↦ rw (h, k) (prepare_erc20_merkelized-IsExpected h k)
    ]
  ]

sent-follow :
    (c : Client) (hash : Bytes) (closes : Bool) (numbers : List ℤ) (w : Wire)
    → (follow c hash closes numbers w).1.sent ≡ w.sent
unfolding follow at_deadline
sent-follow c hash closes [] w = ground arith
sent-follow c hash closes (n ∷ ns) w = ground (arith, sent-follow c hash closes ns (tick w))

sent-follow_subscription :
    (c : Client) (hash : Bytes) (r : Result Delivery × Wire)
    → (follow_subscription c hash r).1.sent ≡ r.1.sent
unfolding follow_subscription
sent-follow_subscription c hash (ok d, w) = sent-follow c hash d.closes d.headers w
sent-follow_subscription c hash (err e, w) = refl

sent-finalizer : (c : Client) (hash : Bytes) (w : Wire) → (finalizer c hash w).1.sent ≡ w.sent
unfolding finalizer finalize
sent-finalizer c hash w =
    sent-follow_subscription c hash (with_retry c.retry_subscription c.node.subscribe_new_head w)
    ∙ sent-with_retry c.retry_subscription c.node.subscribe_new_head w

sent-await :
    (c : Client) (p : Prepared) (hash : Bytes) (w : Wire) → (await c p hash w).1.sent ≡ w.sent
unfolding await
sent-await c p hash w =
    Runs-keeps {S = Wire} (λ x. x.sent) (sent-finalizer c hash)
      (c.retry_finalizer.runs (finalizer c hash) w)

pub sent-submit : (c : Client) (p : Prepared) (w : Wire) → (submit c p w).1.sent ≡ p.call ∷ w.sent
unfolding submit transact
sent-submit c p w = elim (Option-cases (c.node.transact w.calls p.opts p.call)) [
  | inl e ↦ ground (arith, e)
  | inr (hash, e) ↦
      ground (arith, e, sent-await c p hash (record (tick w) { sent = p.call ∷ w.sent }))
]

-- The hash and the nonce of the deposit that a withdrawal names.
unfoldable pub deposit_of : Call → Option (Bytes × ℤ)
deposit_of (call_native _ _ hash nonce _) = some (hash, nonce)
deposit_of (call_erc20 _ _ _ hash nonce _ _) = some (hash, nonce)
deposit_of (call_erc20_merkelized _ _ _ hash nonce _ _ _) = some (hash, nonce)
deposit_of (call_native_merkelized _ _ hash nonce _ _) = some (hash, nonce)
deposit_of (call_update_signer _ _ _ _ _ _) = none

deposit_of-expected_call :
    (eth : Ethereum) (d : Deposit) (call : Call)
    → expected_call eth d ≡ some call
    → deposit_of call ≡ some (tx_hash_to_bytes32 eth d.tx_hash, d.tx_nonce)
unfolding deposit_of expected_call
deposit_of-expected_call eth d call h = ground (arith, h)

-- The withdrawal is reported as failed.
abbrev pub IsFailure : Sent → Type 0
IsFailure (hash, block, e) = (x : Error) × (e ≡ some x)

-- The call is the one that the deposit stands for, and `IsProcessed` asks the contract for its hash and its
-- nonce.
abbrev pub IsWithdrawal : Client → Deposit → Call → Type 0
IsWithdrawal c d call =
    (expected_call c.ethereum d ≡ some call)
    × ((hash : Bytes) × (nonce : ℤ) × (deposit_of call ≡ some (hash, nonce))
        × ((w : Wire) → is_processed c d w ≡ ask (λ n. c.node.contains_hash n hash nonce) w))

expected_call-IsWithdrawal :
    (c : Client) (d : Deposit) (call : Call)
    → expected_call c.ethereum d ≡ some call
    → IsWithdrawal c d call
unfolding is_processed
expected_call-IsWithdrawal c d call h = (
  h,
  (
    tx_hash_to_bytes32 c.ethereum d.tx_hash,
    d.tx_nonce,
    deposit_of-expected_call c.ethereum d call h,
    λ w. refl,
  ),
)

-- `Withdraw` either fails and has handed no call to the contract's binding, or has handed it one call, which
-- is the one that the deposit stands for, with the method that its token and its proof ask for and its
-- own fields as arguments, however often the finalization is tried; `IsProcessed` asks the contract for
-- the hash and the nonce of that call.
pub sent-withdraw :
    (c : Client) (d : Deposit) (from : Bytes) (w : Wire)
    → (IsFailure (withdraw c d from w).0.1 × ((withdraw c d from w).1.sent ≡ w.sent))
      ⊎ ((call : Call) × IsWithdrawal c d call × ((withdraw c d from w).1.sent ≡ call ∷ w.sent))
unfolding withdraw run_withdraw
sent-withdraw c d from w =
    go (get_withdraw_func d c d from w) (get_withdraw_func-IsExpected c d from w)
  where
    go :
        (r : Result Prepared × Wire)
        → (r.1.sent ≡ w.sent)
          × case_result r.0 (λ p. expected_call c.ethereum d ≡ some p.call) (λ e. Unit {0})
        → (IsFailure (run_withdraw c r).0 × ((run_withdraw c r).1.sent ≡ w.sent))
          ⊎ ((call : Call) × IsWithdrawal c d call × ((run_withdraw c r).1.sent ≡ call ∷ w.sent))
    go (ok p, w') (s, q) = inr (
      p.call,
      expected_call-IsWithdrawal c d p.call q,
      sent-submit c p w' ∙ ap (λ x. p.call ∷ x) s,
    )
    go (err e, w') (s, q) = inl ((e, refl), s)
