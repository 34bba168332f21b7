-- ===== src/Clients/Relay.antt =====
-- What the client of a chain did when it returned no error.
use relayer_svc.Base.{
  ℕ, pos, ◌^◌, ◌<◌, ◌≡◌, refl, ap, sym, subst, ◌∙◌, inl, inr, String, false, Option, none, some,
  List, [], ◌∷◌, case_option,
}
use relayer_svc.Types.{err_panic}
use relayer_svc.Db.{Deposit}
use relayer_svc.Env.{Withdrawal}
use relayer_svc.Chain.{Bytes}
use relayer_svc.Evm
use relayer_svc.Evm.Sends as EvmSends
use relayer_svc.Evm.Sends.{IsFailure}
use relayer_svc.Evm.Finality as EvmFinality
use relayer_svc.Evm.Withdraw.{Sent, pick}
use relayer_svc.Evm.Withdraw as EvmWithdraw
use relayer_svc.Solana
use relayer_svc.Solana.Sends as SolanaSends
use relayer_svc.Solana.Withdraw as SolanaWithdraw
use relayer_svc.Ton
use relayer_svc.Ton.Sends as TonSends
use relayer_svc.Ton.Withdraw as TonWithdraw
use relayer_svc.Clients.{
  ChildClient, evm_child, solana_child, ton_child, Moment, begin, report, withdraw,
}

-- An EVM chain: the contract was handed one call, the one that the deposit stands for, and the reported
-- hash is that of the transaction that the contract answered this call with and whose end a node showed.
abbrev pub EvmRelayed : Evm.Client → Deposit → List Evm.Call → Withdrawal → Type 0
EvmRelayed c d sent answer =
    (call : Evm.Call) × (sent ≡ call ∷ [])
    × EvmSends.IsWithdrawal c d call
    × ((hash : Bytes) × (n : ℕ) × EvmFinality.IsAnswered c call hash
        × EvmFinality.IsFinal c hash n
        × (answer.tx_hash ≡ c.ethereum.hash_text hash))

-- Solana: one withdrawal and nothing else was sent, and the node confirmed it with the reported hash.
abbrev pub SolanaRelayed : Solana.Client → Deposit → List Solana.Instruction → Withdrawal → Type 0
SolanaRelayed c d sent answer =
    (i : Solana.Instruction) × (x : Solana.WithdrawalContext) × (sent ≡ i ∷ [])
    × (SolanaSends.withdrawal_of i ≡ some x)
    × ((m : ℕ) × (c.node.send_and_confirm m i ≡ some answer.tx_hash))

-- TON: one message to the bridge was sent, and the node answered it with the reported hash.
abbrev pub TonRelayed : Ton.Client → Deposit → List Ton.Message → Withdrawal → Type 0
TonRelayed c d sent answer =
    (body : Option Bytes) × (sent ≡ TonWithdraw.withdrawal_message c body ∷ [])
    × ((n : ℕ) × (signer bytes : Bytes) × (c.node.send_many_wait_tx_hash n signer
            (TonWithdraw.withdrawal_message c body)
          ≡ some bytes)
        × (answer.tx_hash ≡ c.toolkit.encode_hex bytes))

-- What was handed to the chain in a call, and what it answered there.
abbrev pub IsRelayed : ChildClient → Moment → Deposit → Withdrawal → Type 0
IsRelayed (evm_child c signers) m d answer =
    EvmRelayed c d (EvmWithdraw.child_withdraw c signers m.signer d (begin m)).1.sent answer
IsRelayed (solana_child c signers) m d answer =
    SolanaRelayed c d (SolanaWithdraw.child_withdraw c signers m.signer d (begin m)).1.sent answer
IsRelayed (ton_child c signers) m d answer =
    TonRelayed c d (TonWithdraw.child_withdraw c signers m.signer d (begin m)).1.sent answer

error_none : (x : String × Sent) → (report x).fails ≡ false → EvmFinality.error_of x.1 ≡ none
unfolding report
error_none (operator, (hash, block, none)) h = refl
error_none (operator, (hash, block, some e)) h = absurd (cc h)

not_failure : (x : String × Sent) → (report x).fails ≡ false → IsFailure x.1 → ⊥
unfolding report
not_failure (operator, (hash, block, none)) h (e, q) = cc q
not_failure (operator, (hash, block, some e)) h f = cc h

same_head : {A : Type 0} {x y : A} {xs ys : List A} → x ∷ xs ≡ y ∷ ys → x ≡ y
same_head h = cc h

evm-Relayed :
    (c : Evm.Client) (d : Deposit) (from : Bytes) (w : Evm.Wire)
    → w.sent ≡ []
    → (report (EvmWithdraw.withdraw c d from w).0).fails ≡ false
    → EvmRelayed c d
        (EvmWithdraw.withdraw c d from w).1.sent
        (report (EvmWithdraw.withdraw c d from w).0)
unfolding report
evm-Relayed c d from w e h = elim (EvmSends.sent-withdraw c d from w) [
  | inl (f, s) ↦ absurd (not_failure (EvmWithdraw.withdraw c d from w).0 h f)
  | inr (call, q, s) ↦
      let (hash, (call', one, a), final, t) =
        EvmFinality.withdraw-IsFinal c d from w
          (error_none (EvmWithdraw.withdraw c d from w).0 h) in
      (
        call,
        s ∙ ap (λ xs. call ∷ xs) e,
        q,
        (
          hash,
          (EvmWithdraw.withdraw c d from w).1.calls,
          subst (λ x. EvmFinality.IsAnswered c x hash) (same_head (sym one ∙ s)) a,
          final,
          t,
        ),
      )
]

solana-Relayed :
    (c : Solana.Client) (d : Deposit) (from : Bytes) (n : ℕ) (w : Solana.Wire)
    → d.tx_nonce ≡ pos n
    → n < 2 ^ 64
    → w.sent ≡ []
    → (report (SolanaWithdraw.withdraw c d from w).0).fails ≡ false
    → SolanaRelayed c d
        (SolanaWithdraw.withdraw c d from w).1.sent
        (report (SolanaWithdraw.withdraw c d from w).0)
unfolding report
solana-Relayed c d from n w e l s h = elim (SolanaSends.withdraw-IsAccounted c d from n w e l) [
  | inl (f, q) ↦ absurd (not_failure (SolanaWithdraw.withdraw c d from w).0 h f)
  | inr (i, x, q, k, confirmed, same) ↦ (
    i,
    x,
    q ∙ ap (λ xs. i ∷ xs) s,
    k,
    confirmed (error_none (SolanaWithdraw.withdraw c d from w).0 h),
  )
]

ton-Relayed :
    (c : Ton.Client) (d : Deposit) (from : Bytes) (w : Ton.Wire)
    → w.sent ≡ []
    → (report (TonWithdraw.withdraw c d from w).0).fails ≡ false
    → TonRelayed c d
        (TonWithdraw.withdraw c d from w).1.sent
        (report (TonWithdraw.withdraw c d from w).0)
unfolding report
ton-Relayed c d from w s h = elim (TonSends.sent-withdraw_message c d from w) [
  | inl (f, q) ↦ absurd (not_failure (TonWithdraw.withdraw c d from w).0 h f)
  | inr (body, lacks, q, accepted) ↦ (
    body,
    q ∙ ap (λ xs. TonWithdraw.withdrawal_message c body ∷ xs) s,
    accepted (error_none (TonWithdraw.withdraw c d from w).0 h),
  )
]

-- A child client that has no signer, or draws none, fails; otherwise its parent is called.
pub withdraw-IsRelayed :
    (child : ChildClient) (m : Moment) (d : Deposit) (n : ℕ)
    → d.tx_nonce ≡ pos n
    → n < 2 ^ 64
    → (withdraw child m d).fails ≡ false
    → IsRelayed child m d (withdraw child m d)
unfolding withdraw report EvmWithdraw.child_withdraw SolanaWithdraw.child_withdraw
    TonWithdraw.child_withdraw
withdraw-IsRelayed (evm_child c []) m d n e l h = absurd (cc h)
withdraw-IsRelayed (evm_child c (s ∷ ss)) m d n e l h = go (pick m.signer (s ∷ ss)) h
  where
    called : Option Bytes → (String × Sent) × Evm.Wire
    called o =
        case_option o (("", ("", pos 0, some err_panic)), begin m)
          λ from. EvmWithdraw.withdraw c d from (begin m)

    go :
        (o : Option Bytes)
        → (report (called o).0).fails ≡ false
        → EvmRelayed c d (called o).1.sent (report (called o).0)
    go none k = absurd (cc k)
    go (some from) k = evm-Relayed c d from (begin m) refl k
withdraw-IsRelayed (solana_child c []) m d n e l h = absurd (cc h)
withdraw-IsRelayed (solana_child c (s ∷ ss)) m d n e l h = go (pick m.signer (s ∷ ss)) h
  where
    called : Option Bytes → (String × Sent) × Solana.Wire
    called o =
        case_option o (("", ("", pos 0, some err_panic)), begin m)
          λ from. SolanaWithdraw.withdraw c d from (begin m)

    go :
        (o : Option Bytes)
        → (report (called o).0).fails ≡ false
        → SolanaRelayed c d (called o).1.sent (report (called o).0)
    go none k = absurd (cc k)
    go (some from) k = solana-Relayed c d from n (begin m) e l refl k
withdraw-IsRelayed (ton_child c []) m d n e l h = absurd (cc h)
withdraw-IsRelayed (ton_child c (s ∷ ss)) m d n e l h = go (pick m.signer (s ∷ ss)) h
  where
    called : Option Bytes → (String × Sent) × Ton.Wire
    called o =
        case_option o (("", ("", pos 0, some err_panic)), begin m)
          λ from. TonWithdraw.withdraw c d from (begin m)

    go :
        (o : Option Bytes)
        → (report (called o).0).fails ≡ false
        → TonRelayed c d (called o).1.sent (report (called o).0)
    go none k = absurd (cc k)
    go (some from) k = ton-Relayed c d from (begin m) refl k
