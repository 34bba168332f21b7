-- ===== src/Evm/Mined.antt =====
-- When an EVM client reports the signers as updated.
use relayer_svc.Base.{
  ℕ, ℤ, pos, inl, inr, Bool-cases, ◌≡◌, refl, ap, ◌∙◌, String, ◌==◌, Option, none, some, List, ◌∷◌,
  arith, case_option, Option-cases, if◌then◌else◌,
}
use relayer_svc.Types.{err_chain, err_parse, ok, err, case_result}
use relayer_svc.Db.{Epoch}
use relayer_svc.Attempt.{Attempt, pure, ◌>>=◌, or_raise}
use relayer_svc.Chain.{Bytes, set_string}
use relayer_svc.Outbox.{ask}
use relayer_svc.Outbox.Ensures.{sent-or_raise}
use relayer_svc.Outbox.Triples.{
  Triple, Triple-bind, Triple-nothing, Triple-pure, Triple-or_raise, Triple-known,
}
use relayer_svc.Evm.{Call, TransactOpts, Client, Wire, prepare_tx_opts, get_block_with_retry}
use relayer_svc.Evm.Withdraw.{transact}
use relayer_svc.Evm.Sends.{sent-prepare_tx_opts, sent-get_block_with_retry}
use relayer_svc.Evm.Signers.{update_signer_call, send, update_signers, receipt_success}

-- The contract was handed the call that the epoch stands for, and answered with a transaction that was
-- mined with success.
abbrev pub IsMined : Client → Epoch → List Call → List Call → String → Type 0
IsMined c e before after text =
    (signature : Bytes) × (nonce : ℤ) × (c.ethereum.decode_hex e.signature ≡ some signature)
    × (set_string e.nonce ≡ some nonce)
    × (after ≡ update_signer_call c e signature nonce ∷ before)
    × ((hash : Bytes) × (m k : ℕ) × (opts : TransactOpts) × (c.node.transact m opts
            (update_signer_call c e signature nonce)
          ≡ some hash)
        × (c.node.wait_mined k hash ≡ some receipt_success)
        × (text ≡ c.ethereum.hash_text hash))

-- The contract answered the epoch's call with a hash.
abbrev IsSent : Client → Epoch → Bytes → ℤ → List Call → Bytes × ℤ → List Call → Type 0
IsSent c e signature nonce before (hash, block) after =
    (after ≡ update_signer_call c e signature nonce ∷ before)
    × ((m : ℕ) × (opts : TransactOpts) × (c.node.transact m opts
            (update_signer_call c e signature nonce)
          ≡ some hash))

-- Nothing is said of what an error leaves.
abbrev Any : List Call → Type 0
Any s = Unit {0}

module _ (c : Client) (e : Epoch) (from : Bytes) (before : List Call) where
  abbrev Same : List Call → Type 0
  Same s = s ≡ before

  abbrev payload_of : Bytes → ℤ → Option Bytes
  payload_of signature nonce =
      c.ethereum.pack "updateSigner" (update_signer_call c e signature nonce)

  Triple-transact :
      (signature : Bytes) (nonce : ℤ) (opts : TransactOpts)
      → Triple Same
          (λ w.
            let (answer, w') = transact c opts (update_signer_call c e signature nonce) w in
            (case_option answer (err err_chain) ok, w'))
          (λ hash. IsSent c e signature nonce before (hash, pos 0))
          Any
  unfolding transact
  Triple-transact signature nonce opts w s =
      elim (Option-cases (c.node.transact w.calls opts (update_signer_call c e signature nonce))) [
        | inl q ↦ rw q tt
        | inr (hash, q) ↦
            rw q (ap (λ xs. update_signer_call c e signature nonce ∷ xs) s, (w.calls, opts, q))
      ]

  Triple-send :
      (signature : Bytes) (nonce : ℤ)
      → Triple Same (send c e signature nonce from) (IsSent c e signature nonce before) Any
  unfolding send
  Triple-send signature nonce =
      Triple-bind Same (λ payload. Same) (IsSent c e signature nonce before) Any _ _
        (Triple-nothing Same Any (or_raise err_parse (payload_of signature nonce))
          (sent-or_raise err_parse (payload_of signature nonce)) (λ s p. tt))
        λ payload.
          Triple-bind Same (λ opts. Same) (IsSent c e signature nonce before) Any _ _
            (Triple-nothing Same Any (prepare_tx_opts c payload from)
              (sent-prepare_tx_opts c payload from) (λ s p. tt))
            λ opts.
              Triple-bind Same (λ block. Same) (IsSent c e signature nonce before) Any _ _
                (Triple-nothing Same Any (get_block_with_retry c) (sent-get_block_with_retry c)
                  (λ s p. tt))
                λ block.
                  Triple-bind Same (λ hash. IsSent c e signature nonce before (hash, pos 0))
                    (IsSent c e signature nonce before) Any _ _
                    (Triple-transact signature nonce opts)
                    λ hash.
                      Triple-pure (IsSent c e signature nonce before (hash, pos 0))
                        (IsSent c e signature nonce before) Any (hash, block) (λ s p. p)

  -- The receipt of the transaction, with its status.
  Triple-wait :
      (signature : Bytes) (nonce : ℤ) (hash : Bytes) (block : ℤ)
      → Triple
          (IsSent c e signature nonce before (hash, block))
          (ask λ n. c.node.wait_mined n hash)
          (λ status s.
            IsSent c e signature nonce before (hash, block) s
            × ((k : ℕ) × (c.node.wait_mined k hash ≡ some status)))
          Any
  unfolding ask
  Triple-wait signature nonce hash block w p =
      elim (Option-cases (c.node.wait_mined w.calls hash)) [
        | inl q ↦ rw q tt
        | inr (status, q) ↦ rw q (p, (w.calls, q))
      ]

  Triple-judge :
      (signature : Bytes) (nonce : ℤ) (hash : Bytes) (block : ℤ) (status : ℕ)
      → c.ethereum.decode_hex e.signature ≡ some signature
      → set_string e.nonce ≡ some nonce
      → Triple {A = String × ℤ}
          (λ s.
            IsSent c e signature nonce before (hash, block) s
            × ((k : ℕ) × (c.node.wait_mined k hash ≡ some status)))
          (if status == receipt_success
            then pure (c.ethereum.hash_text hash, block)
            else or_raise err_chain none)
          (λ r s. IsMined c e before s r.0)
          Any
  unfolding pure or_raise
  Triple-judge signature nonce hash block status h k w ((s, (m, opts, q)), (j, mined)) =
      elim (Bool-cases (status == receipt_success)) [
        | inl t ↦ rw t (
          signature,
          nonce,
          h,
          k,
          s,
          (hash, m, j, opts, q, mined ∙ ap some (ground (arith, t)), refl),
        )
        | inr t ↦ rw t tt
      ]

  -- What follows the reading of the signature and the nonce.
  abbrev finish : Bytes → ℤ → Attempt Wire (String × ℤ)
  finish signature nonce = send c e signature nonce from >>= λ x.
      ask (λ n. c.node.wait_mined n x.0) >>= λ status.
      if status == receipt_success
      then pure (c.ethereum.hash_text x.0, x.1)
      else or_raise err_chain none

  abbrev Mined : String × ℤ → List Call → Type 0
  Mined r s = IsMined c e before s r.0

  Triple-finish :
      (signature : Bytes) (nonce : ℤ)
      → c.ethereum.decode_hex e.signature ≡ some signature
      → set_string e.nonce ≡ some nonce
      → Triple Same (finish signature nonce) Mined Any
  Triple-finish signature nonce h k =
      Triple-bind Same (IsSent c e signature nonce before) Mined Any _ _
        (Triple-send signature nonce)
        λ x.
          Triple-bind (IsSent c e signature nonce before x)
            (λ status s.
              IsSent c e signature nonce before x s
              × ((k : ℕ) × (c.node.wait_mined k x.0 ≡ some status)))
            Mined Any _ _ (Triple-wait signature nonce x.0 x.1)
            λ status. Triple-judge signature nonce x.0 x.1 status h k

  Triple-update_signers : Triple Same (update_signers c e from) Mined Any
  unfolding update_signers
  Triple-update_signers =
      Triple-bind Same
        (λ signature s. Same s × (c.ethereum.decode_hex e.signature ≡ some signature)) Mined Any _ _
        (Triple-or_raise Same Any err_parse (c.ethereum.decode_hex e.signature) (λ s p. tt))
        λ signature.
          Triple-known (c.ethereum.decode_hex e.signature ≡ some signature) Same
            (or_raise err_parse (set_string e.nonce) >>= finish signature) Mined Any
            λ h.
              Triple-bind Same (λ nonce s. Same s × (set_string e.nonce ≡ some nonce)) Mined Any _ _
                (Triple-or_raise Same Any err_parse (set_string e.nonce) (λ s p. tt))
                λ nonce.
                  Triple-known (set_string e.nonce ≡ some nonce) Same (finish signature nonce) Mined
                    Any (Triple-finish signature nonce h)

pub update_signers-IsMined :
    (c : Client) (e : Epoch) (from : Bytes) (w : Wire)
    → case_result
        (update_signers c e from w).0
        (λ r. IsMined c e w.sent (update_signers c e from w).1.sent r.0)
        λ x. Unit
update_signers-IsMined c e from w = Triple-update_signers c e from w.sent w refl
