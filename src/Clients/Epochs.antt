-- ===== src/Clients/Epochs.antt =====
-- A run of a signers' container whose chain is served by an EVM client.
use relayer_svc.Base.{
  ℕ, ◌≡◌, refl, sym, ◌∙◌, String, ℤ, true, false, Option, none, some, List, [], ◌∷◌, arith,
  case_option,
}
use relayer_svc.Types.{err_panic, Result, ok, err, case_result, epoch_pending, epoch_processed}
use relayer_svc.Db.{Epoch, epoch_identifier}
use relayer_svc.Env.{Environment, World}
use relayer_svc.Attempt.{or_raise}
use relayer_svc.Chain.{Bytes}
use relayer_svc.Postgres.Signatures.{set_status}
use relayer_svc.Postgres.Epochs.{epoch_row, same_identifier_iff}
use relayer_svc.Containers.Signers.{run}
use relayer_svc.Containers.Signers.Rows.{epoch_row-run}
use relayer_svc.Evm
use relayer_svc.Evm.Mined.{IsMined, update_signers-IsMined}
use relayer_svc.Evm.Signers.{child_update_signers}
use relayer_svc.Evm.Signers as EvmSigners
use relayer_svc.Evm.Withdraw.{pick}
use relayer_svc.Clients.{
  ChildClient, evm_child, Moment, begin, Registry, update_signers, value_of, with_clients,
}

-- What the client sent in the call, and that it was mined.
abbrev pub WasMined : Evm.Client → List Bytes → Moment → Epoch → Type 0
WasMined c signers m e =
    (text : String) × IsMined c e [] (child_update_signers c signers m.signer e (begin m)).1.sent
      text

update_signers-WasMined :
    (c : Evm.Client) (signers : List Bytes) (m : Moment) (e : Epoch)
    → update_signers (evm_child c signers) m e ≡ true
    → WasMined c signers m e
unfolding update_signers value_of child_update_signers or_raise
update_signers-WasMined c [] m e h = absurd (cc h)
update_signers-WasMined c (s ∷ ss) m e h = go (pick m.signer (s ∷ ss)) h
  where
    called : Option Bytes → Result (String × ℤ) × Evm.Wire
    called o = case_option o (or_raise err_panic none) (EvmSigners.update_signers c e) (begin m)

    go :
        (o : Option Bytes)
        → case_option (value_of (called o)) false (λ x. true) ≡ true
        → (text : String) × IsMined c e [] (called o).1.sent text
    go none k = absurd (cc k)
    go (some from) k =
        mined (EvmSigners.update_signers c e from (begin m))
          (update_signers-IsMined c e from (begin m)) k
      where
        mined :
            (r : Result (String × ℤ) × Evm.Wire)
            → case_result r.0 (λ x. IsMined c e [] r.1.sent x.0) (λ x. Unit {0})
            → case_option (value_of r) false (λ x. true) ≡ true
            → (text : String) × IsMined c e [] r.1.sent text
        mined (ok x, w) h k = (x.0, h)
        mined (err x, w) h k = absurd (cc k)

-- Only an update that the chain made marks the row as processed.
updated_of_processed :
    (env : Environment) (epoch x y : Epoch) (w : World)
    → epoch_row (epoch_identifier epoch) w.epochs ≡ some x
    → x.status ≡ epoch_pending
    → epoch_row (epoch_identifier epoch) (run env epoch w).1.epochs ≡ some y
    → y.status ≡ epoch_processed
    → env.update_signers w.calls epoch ≡ true
unfolding set_status
updated_of_processed env epoch x y w before pending after done = ground (
  arith,
  epoch_row-run env epoch w (epoch_identifier epoch),
  same_identifier_iff (epoch_identifier epoch) (epoch_identifier epoch),
  after,
)

served_by :
    (r : Registry) (env : Environment) (n : ℕ) (e : Epoch) (child : ChildClient)
    → r.child e.chain_id ≡ some child
    → (with_clients r env).update_signers n e ≡ update_signers child (r.moment n) e
unfolding with_clients
served_by r env n e child served = rw served refl

-- The row of an epoch of an EVM chain goes from PENDING to PROCESSED only if its client, in the call of the
-- run, handed the contract the update that the epoch stands for, and that was mined with success.
pub epoch_row-WasMined :
    (r : Registry) (env : Environment) (epoch x y : Epoch) (w : World) (c : Evm.Client)
    (signers : List Bytes)
    → r.child epoch.chain_id ≡ some (evm_child c signers)
    → epoch_row (epoch_identifier epoch) w.epochs ≡ some x
    → x.status ≡ epoch_pending
    → epoch_row (epoch_identifier epoch) (run (with_clients r env) epoch w).1.epochs ≡ some y
    → y.status ≡ epoch_processed
    → WasMined c signers (r.moment w.calls) epoch
epoch_row-WasMined r env epoch x y w c signers served before pending after done =
    update_signers-WasMined c signers (r.moment w.calls) epoch (
      sym (served_by r env w.calls epoch (evm_child c signers) served)
      ∙ updated_of_processed (with_clients r env) epoch x y w before pending after done)
