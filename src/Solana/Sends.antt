-- ===== src/Solana/Sends.antt =====
-- What the Solana client sends for a withdrawal.
use relayer_svc.Base.{
  ◌+◌, String, sym, ℕ, pos, to_int64, ◌^◌, ◌<◌, ◌≡◌, refl, ◌⊎◌, inl, inr, ap, ◌∙◌, arith, str_eq,
  Option, none, some, List, ◌∷◌, case_option, Option-cases,
}
use relayer_svc.Types.{Error, err_chain, err_panic, err_parse, Result, ok, err, case_result}
use relayer_svc.Db.{Deposit}
use relayer_svc.Attempt.{Attempt, pure, ◌>>=◌, or_raise}
use relayer_svc.Chain.{Bytes, default_native_token_address}
use relayer_svc.Outbox.{ask, with_retry, tick}
use relayer_svc.Outbox.Ensures.{
  SendsNothing, sent-with_retry, sent-or_raise, Ensures, Ensures-bind, Ensures-or_raise,
  Ensures-pure,
}
use relayer_svc.Outbox.Triples.{
  After, Triple, Triple-bind, Triple-nothing, Triple-pure, Triple-Ensures, Triple-known, Triple-if,
}
use relayer_svc.Evm.Withdraw.{Sent}
use relayer_svc.Evm.Sends.{IsFailure}
use relayer_svc.Solana.{
  WithdrawalContext, Instruction, withdraw_native, withdraw_spl, withdraw_wrapped, init_spl_vault,
  AccountAnswer, account, not_found, account_fails, Client, Wire,
}
use relayer_svc.Solana.Data.{get_withdrawal_context, get_withdrawal_pda, get_sign_hash}
use relayer_svc.Solana.Metadata.{get_token_metadata}
use relayer_svc.Solana.Withdraw.{
  owner_of, get_latest_block_with_retry, confirm, send_tx, init_vault, check_vault, get_spl_vault,
  Prepared, prepare_native, prepare_spl, prepare_wrapped, prepare_token, prepare, submit,
  run_withdraw, withdraw, is_processed, exists_account,
}
use relayer_svc.Solana.Processed.{get_withdrawal_hash-get_sign_hash}

-- The context of a withdrawal's instruction.
unfoldable pub withdrawal_of : Instruction → Option WithdrawalContext
withdrawal_of (withdraw_native x _) = some x
withdrawal_of (withdraw_spl x _ _ _) = some x
withdrawal_of (withdraw_wrapped _ _ x _) = some x
withdrawal_of _ = none

sent-owner_of : (c : Client) (key : Bytes) → SendsNothing (owner_of c key)
unfolding owner_of
sent-owner_of c key w = refl

sent-get_latest_block_with_retry : (c : Client) → SendsNothing (get_latest_block_with_retry c)
unfolding get_latest_block_with_retry ◌>>=◌ pure
sent-get_latest_block_with_retry c w =
    go (with_retry c.retry_block c.node.latest_blockhash w)
      (sent-with_retry c.retry_block c.node.latest_blockhash w)
  where
    go :
        (r : Result (Bytes × ℕ) × Wire)
        → r.1.sent ≡ w.sent
        → (case_result r.0 (λ a. pure (to_int64 a.1) r.1) (λ e. (err e, r.1))).1.sent ≡ w.sent
    go (ok a, w') h = h
    go (err e, w') h = h

sent-get_token_metadata : (c : Client) (token : Bytes) → SendsNothing (get_token_metadata c token)
unfolding get_token_metadata ask ◌>>=◌
sent-get_token_metadata c token w = ground arith

-- `SendTx` sends its instruction, or nothing and then it fails without a signature.
send_tx-cases :
    (c : Client) (i : Instruction) (wallet : Bytes) (w : Wire)
    → ((send_tx c i wallet w).1.sent ≡ i ∷ w.sent)
      ⊎ (((send_tx c i wallet w).1.sent ≡ w.sent)
          × ((e : Error) × ((send_tx c i wallet w).0.1 ≡ some e)))
unfolding send_tx ask confirm
send_tx-cases c i wallet w = elim (Option-cases (c.node.latest_blockhash w.calls)) [
  | inl e ↦ inr (ground (arith, e), (err_chain, ground (arith, e)))
  | inr (recent, e) ↦ elim (Option-cases (c.toolkit.sign_transaction i recent.0 wallet)) [
    | inl q ↦ inr (ground (arith, e, q), (err_chain, ground (arith, e, q)))
    | inr (signature, q) ↦ inl (ground (arith, e, q))
  ]
]

-- The context's account is derived from the hash that is signed.
abbrev IsDerived : Client → Deposit → WithdrawalContext → Type 0
IsDerived c d x =
    (hash : Bytes) × (get_sign_hash c d ≡ some hash)
    × (get_withdrawal_pda c hash ≡ some x.withdrawal_pda)

Ensures-get_withdrawal_context :
    (c : Client) (d : Deposit) → Ensures (IsDerived c d) (get_withdrawal_context c d)
unfolding get_withdrawal_context
Ensures-get_withdrawal_context c d =
    Ensures-bind _ _ _ _ (Ensures-or_raise err_parse _) λ signature _.
      Ensures-bind _ _ _ _ (Ensures-or_raise err_parse _) λ hash p.
        Ensures-bind _ _ _ _ (Ensures-or_raise err_parse _) λ pda q.
          Ensures-bind _ _ _ _ (Ensures-or_raise err_parse _) λ amount _.
            Ensures-bind _ _ _ _ (Ensures-or_raise err_parse _) λ receiver _.
              Ensures-bind _ _ _ _ (Ensures-or_raise err_parse _) λ token _.
                Ensures-bind _ _ _ _ (Ensures-or_raise err_parse _)
                  λ authority _. Ensures-pure _ _ (hash, p, q)

-- The account of a withdrawal of the context is the one that `IsProcessed` looks up.
IsDerived-is_processed :
    (c : Client) (d : Deposit) (n : ℕ) (x : WithdrawalContext)
    → d.tx_nonce ≡ pos n
    → n < 2 ^ 64
    → IsDerived c d x
    → (w : Wire) → is_processed c d w ≡ exists_account c x.withdrawal_pda w
unfolding is_processed ◌>>=◌ or_raise
IsDerived-is_processed c d n x e l (hash, p, q) w =
    rw (get_withdrawal_hash-get_sign_hash c d hash n e l p, q) refl

-- What was sent before, and an instruction that is no withdrawal on top of it, if any.
module _ (c : Client) (d : Deposit) (signer : Bytes) (before : List Instruction) where
  abbrev Same : List Instruction → Type 0
  Same s = s ≡ before

  abbrev NoWithdrawal : List Instruction → Type 0
  NoWithdrawal s = (s ≡ before) ⊎ ((i : Instruction) × (withdrawal_of i ≡ none) × (s ≡ i ∷ before))

  abbrev VaultIs : Option Bytes → List Instruction → Type 0
  VaultIs none s = NoWithdrawal s
  VaultIs (some _) s = Same s

  abbrev IsReady : Prepared → List Instruction → Type 0
  IsReady p s = Same s × ((x : WithdrawalContext) × (withdrawal_of p.0 ≡ some x) × IsDerived c d x)

  VaultIs-NoWithdrawal : (v : Option Bytes) (s : List Instruction) → VaultIs v s → NoWithdrawal s
  VaultIs-NoWithdrawal none s h = h
  VaultIs-NoWithdrawal (some _) s h = inl h

  Triple-check_vault :
      (token vault owner : Bytes)
      → Triple Same (check_vault c token vault owner signer) VaultIs NoWithdrawal
  unfolding check_vault init_vault
  Triple-check_vault token vault owner w h = go (c.node.account_info w.calls vault)
    where
      made : Result (Option Bytes) × Wire
      made = init_vault c token vault owner signer (tick w)

      no_withdrawal : NoWithdrawal made.1.sent
      no_withdrawal =
          elim (send_tx-cases c (init_spl_vault c.bridge_id token vault signer owner) signer
            (tick w)) [
              | inl e ↦ inr (
                init_spl_vault c.bridge_id token vault signer owner,
                unfold withdrawal_of in refl,
                e ∙ ap (λ s. init_spl_vault c.bridge_id token vault signer owner ∷ s) h,
              )
              | inr (e, _) ↦ inl (e ∙ h)
            ]

      either :
          (e : Option Error) → After VaultIs NoWithdrawal (case_option e (ok none) err) made.1.sent
      either none = no_withdrawal
      either (some e) = no_withdrawal

      pick : AccountAnswer → Result (Option Bytes) × Wire
      pick a = elim a [
        | account _ ↦ (ok (some vault), tick w)
        | not_found ↦ made
        | account_fails ↦ (err err_chain, tick w)
      ]

      go : (a : AccountAnswer) → After VaultIs NoWithdrawal (pick a).0 (pick a).1.sent
      go (account _) = h
      go not_found =
          either
            (send_tx c (init_spl_vault c.bridge_id token vault signer owner) signer (tick w)).0.1
      go account_fails = inl h

  -- A step that sends nothing, and then the rest.
  Triple-quiet :
      {A B : Type 0} (R : B → List Instruction → Type 0) (m : Attempt Wire A)
      (f : A → Attempt Wire B)
      → SendsNothing m
      → ((a : A) → Triple Same (f a) R NoWithdrawal)
      → Triple Same (m >>= f) R NoWithdrawal
  Triple-quiet R m f k h =
      Triple-bind Same (λ _. Same) R NoWithdrawal m f
        (Triple-nothing Same NoWithdrawal m k λ s p. inl p) h

  Triple-get_spl_vault : Triple Same (get_spl_vault c d signer) VaultIs NoWithdrawal
  unfolding get_spl_vault
  Triple-get_spl_vault = Triple-quiet VaultIs _ _ (sent-or_raise err_parse _) λ token.
      Triple-quiet VaultIs _ _ (sent-owner_of c token) λ owner.
        Triple-quiet VaultIs _ _ (sent-or_raise err_parse _)
          λ vault. Triple-check_vault token vault owner

  -- The context, and then a step that may use what is known of it.
  Triple-with_context :
      {B : Type 0} (f : WithdrawalContext → Attempt Wire B) (R : B → List Instruction → Type 0)
      → ((x : WithdrawalContext) → IsDerived c d x → Triple Same (f x) R NoWithdrawal)
      → Triple Same (get_withdrawal_context c d >>= f) R NoWithdrawal
  Triple-with_context f R h =
      Triple-bind Same (λ x s. Same s × IsDerived c d x) R NoWithdrawal _ f
        (Triple-Ensures Same NoWithdrawal (IsDerived c d) (get_withdrawal_context c d)
          (Ensures-get_withdrawal_context c d) (λ s p. inl p))
        λ x. Triple-known (IsDerived c d x) Same (f x) R NoWithdrawal (h x)

  Triple-IsReady :
      (p : Prepared) (x : WithdrawalContext)
      → withdrawal_of p.0 ≡ some x
      → IsDerived c d x
      → Triple Same (pure p) IsReady NoWithdrawal
  Triple-IsReady p x e k = Triple-pure Same IsReady NoWithdrawal p λ s h. (h, (x, e, k))

  Triple-prepare_native : Triple Same (prepare_native c d signer) IsReady NoWithdrawal
  unfolding prepare_native withdrawal_of
  Triple-prepare_native = Triple-with_context _ IsReady λ x k.
      Triple-quiet IsReady _ _ (sent-get_latest_block_with_retry c)
        λ block. Triple-IsReady _ x refl k

  Triple-prepare_wrapped : Triple Same (prepare_wrapped c d signer) IsReady NoWithdrawal
  unfolding prepare_wrapped withdrawal_of
  Triple-prepare_wrapped = Triple-with_context _ IsReady λ x k.
      Triple-quiet IsReady _ _ (sent-get_token_metadata c x.token) λ t.
        Triple-quiet IsReady _ _ (sent-get_latest_block_with_retry c)
          λ block. Triple-IsReady _ x refl k

  Triple-pointer :
      (v : Option Bytes) → Triple (VaultIs v) (or_raise err_panic v) (λ _. Same) NoWithdrawal
  unfolding or_raise
  Triple-pointer none w h = h
  Triple-pointer (some _) w h = h

  Triple-prepare_spl : Triple Same (prepare_spl c d signer) IsReady NoWithdrawal
  unfolding prepare_spl withdrawal_of
  Triple-prepare_spl = Triple-with_context _ IsReady λ x k.
      Triple-bind Same VaultIs IsReady NoWithdrawal _ _ Triple-get_spl_vault λ v.
        Triple-bind (VaultIs v) (λ _. VaultIs v) IsReady NoWithdrawal _ _
          (Triple-nothing (VaultIs v) NoWithdrawal (owner_of c x.token) (sent-owner_of c x.token)
            (VaultIs-NoWithdrawal v))
          λ owner.
            Triple-bind (VaultIs v) (λ _. Same) IsReady NoWithdrawal _ _ (Triple-pointer v)
              λ vault.
                Triple-quiet IsReady _ _ (sent-get_latest_block_with_retry c)
                  λ block. Triple-IsReady _ x refl k

  Triple-prepare_token : Triple Same (prepare_token c d signer) IsReady NoWithdrawal
  unfolding prepare_token
  Triple-prepare_token = Triple-quiet IsReady _ _ (sent-or_raise err_parse _) λ receiver.
      Triple-quiet IsReady _ _ (sent-owner_of c receiver) λ owner.
        Triple-if Same IsReady NoWithdrawal d.is_wrapped_token _ _ Triple-prepare_wrapped
          Triple-prepare_spl

  Triple-prepare : Triple Same (prepare c d signer) IsReady NoWithdrawal
  unfolding prepare
  Triple-prepare =
      Triple-if Same IsReady NoWithdrawal (str_eq d.withdrawal_token default_native_token_address) _
        _ Triple-prepare_native Triple-prepare_token

-- `SendTx` returns no error only if the node confirmed the instruction, with the signature that it answered.
send_tx-confirmed :
    (c : Client) (i : Instruction) (wallet : Bytes) (w : Wire)
    → (send_tx c i wallet w).0.1 ≡ none
    → (m : ℕ) × (s : String) × (c.node.send_and_confirm m i ≡ some s)
      × ((send_tx c i wallet w).0.0 ≡ some s)
unfolding send_tx ask confirm
send_tx-confirmed c i wallet w h = elim (Option-cases (c.node.latest_blockhash w.calls)) [
  | inl e ↦ absurd (ground (arith, e, h))
  | inr (recent, e) ↦ elim (Option-cases (c.toolkit.sign_transaction i recent.0 wallet)) [
    | inl q ↦ absurd (ground (arith, e, q, h))
    | inr (signature, q) ↦ elim (Option-cases (c.node.send_and_confirm (w.calls + 1) i)) [
      | inl r ↦ absurd (ground (arith, e, q, r, h))
      | inr (s, r) ↦ (w.calls + 1, s, r, ground (arith, e, q, r))
    ]
  ]
]

-- Success means that the node confirmed the instruction, with the hash that is reported.
abbrev pub IsConfirmed : Client → Instruction → Sent → Type 0
IsConfirmed c i (hash, block, e) = e ≡ none → (m : ℕ) × (c.node.send_and_confirm m i ≡ some hash)

submit-IsConfirmed :
    (c : Client) (p : Prepared) (signer : Bytes) (w : Wire)
    → IsConfirmed c p.0 (submit c p signer w).0
unfolding submit
submit-IsConfirmed c p signer w h =
    let (m, s, e, q) = send_tx-confirmed c p.0 signer w h in
    (m, e ∙ ap some (sym (ap (λ o. case_option o "" λ x. x) q)))

submit-cases :
    (c : Client) (p : Prepared) (signer : Bytes) (w : Wire)
    → ((submit c p signer w).1.sent ≡ p.0 ∷ w.sent)
      ⊎ (((submit c p signer w).1.sent ≡ w.sent) × IsFailure (submit c p signer w).0)
unfolding submit
submit-cases c p signer w = send_tx-cases c p.0 signer w

-- What `Withdraw` has sent on top of what was sent before: nothing or a vault's making, beside a failure; or
-- a withdrawal, whose account is the one that `IsProcessed` looks up.
abbrev pub IsAccounted : Client → Deposit → List Instruction → Sent → List Instruction → Type 0
IsAccounted c d before sent after =
    (IsFailure sent
      × ((after ≡ before) ⊎ ((i : Instruction) × (withdrawal_of i ≡ none) × (after ≡ i ∷ before))))
    ⊎ ((i : Instruction) × (x : WithdrawalContext) × (after ≡ i ∷ before)
        × (withdrawal_of i ≡ some x)
        × IsConfirmed c i sent
        × ((w : Wire) → is_processed c d w ≡ exists_account c x.withdrawal_pda w))

-- For a nonce that is no negative number, `Withdraw` either fails and has sent no withdrawal, but at most
-- the making of a vault, or it has sent one withdrawal and nothing else, whose account is the one that
-- `IsProcessed` looks up for the deposit, and which the node confirmed with the reported hash if no
-- error is reported.
pub withdraw-IsAccounted :
    (c : Client) (d : Deposit) (signer : Bytes) (n : ℕ) (w : Wire)
    → d.tx_nonce ≡ pos n
    → n < 2 ^ 64
    → IsAccounted c d w.sent (withdraw c d signer w).0.1 (withdraw c d signer w).1.sent
unfolding withdraw run_withdraw
withdraw-IsAccounted c d signer n w e l =
    go (prepare c d signer w) (Triple-prepare c d signer w.sent w refl)
  where
    go :
        (r : Result Prepared × Wire)
        → After (IsReady c d signer w.sent) (NoWithdrawal c d signer w.sent) r.0 r.1.sent
        → IsAccounted c d w.sent (run_withdraw c signer r).0 (run_withdraw c signer r).1.sent
    go (err x, w') h = inl ((x, refl), h)
    go (ok p, w') (same, (x, q, k)) = elim (submit-cases c p signer w') [
      | inl s ↦ inr (
        p.0,
        x,
        s ∙ ap (λ ys. p.0 ∷ ys) same,
        q,
        submit-IsConfirmed c p signer w',
        IsDerived-is_processed c d n x e l k,
      )
      | inr (s, f) ↦ inl (f, inl (s ∙ same))
    ]
