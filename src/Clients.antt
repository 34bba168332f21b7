-- ===== src/Clients.antt =====
-- The interface `ChildClient` of internal/core/chain/types.go, which a child client of each of the three
-- kinds implements, and what the broadcaster gets when it calls one.
pub mod Relay
pub mod Rounds
pub mod Epochs
use relayer_svc.Base.{
  ℕ, ℤ, String, Bool, true, false, Option, none, some, List, [], pos, case_option,
}
use relayer_svc.Types.{Error, err_panic, Result, ok, err, case_result}
use relayer_svc.Db.{Deposit, Epoch}
use relayer_svc.Env.{Environment, Withdrawal}
use relayer_svc.Chain.{Bytes}
use relayer_svc.Outbox.{Outbox}
use relayer_svc.Evm
use relayer_svc.Evm.Data as EvmData
use relayer_svc.Evm.Signers as EvmSigners
use relayer_svc.Evm.Withdraw.{Sent}
use relayer_svc.Evm.Withdraw as EvmWithdraw
use relayer_svc.Solana
use relayer_svc.Solana.Signers as SolanaSigners
use relayer_svc.Solana.Withdraw as SolanaWithdraw
use relayer_svc.Ton
use relayer_svc.Ton.Signers as TonSigners
use relayer_svc.Ton.Store as TonStore
use relayer_svc.Ton.Withdraw as TonWithdraw

-- A child client: its parent and its signers.
pub data ChildClient : Type 0 where
  evm_child : Evm.Client → List Bytes → ChildClient
  solana_child : Solana.Client → List Bytes → ChildClient
  ton_child : Ton.Client → List Bytes → ChildClient

-- When a child client is called: how many calls the nodes of its chain have answered before, and the
-- number that `rand.Intn` answers.
pub record Moment : Type 0 where
  pub calls : ℕ
  pub signer : ℕ

-- Nothing is handed to the nodes yet in this call.
abbrev pub begin : {C : Type 0} → Moment → Outbox C
begin m = record { sent = []; calls = m.calls }

-- The value and the error that the method returns.
unfoldable pub value_of : {C A : Type 0} → Result A × Outbox C → Option A
value_of (ok a, w) = some a
value_of (err e, w) = none

unfoldable pub is_processed : ChildClient → Moment → Deposit → Option Bool
unfolding value_of
is_processed (evm_child c signers) m d = value_of (EvmData.is_processed c d (begin m))
is_processed (solana_child c signers) m d = value_of (SolanaWithdraw.is_processed c d (begin m))
is_processed (ton_child c signers) m d = value_of (TonStore.is_processed c d (begin m))

is_panic : Error → Bool
is_panic err_panic = true
is_panic _ = false

-- The four values that `Withdraw` returns, for the broadcaster, or its panic, which ends the process.
unfoldable pub report : String × Sent → Withdrawal
unfolding is_panic
report (operator, (hash, block, e)) = record {
  operator = operator;
  tx_hash = hash;
  block = block;
  fails = case_option e false λ x. true;
  panics = case_option e false is_panic;
}

unfoldable pub withdraw : ChildClient → Moment → Deposit → Withdrawal
unfolding report
withdraw (evm_child c signers) m d =
    report (EvmWithdraw.child_withdraw c signers m.signer d (begin m)).0
withdraw (solana_child c signers) m d =
    report (SolanaWithdraw.child_withdraw c signers m.signer d (begin m)).0
withdraw (ton_child c signers) m d =
    report (TonWithdraw.child_withdraw c signers m.signer d (begin m)).0

-- Whether `UpdateSigners` returns no error.
unfoldable pub update_signers : ChildClient → Moment → Epoch → Bool
unfolding value_of
update_signers (evm_child c signers) m e =
    case_option (value_of (EvmSigners.child_update_signers c signers m.signer e (begin m))) false
      λ x. true
update_signers (solana_child c signers) m e =
    case_option (value_of (SolanaSigners.child_update_signers c signers m.signer e (begin m))) false
      λ x. true
update_signers (ton_child c signers) m e =
    case_option (value_of (TonSigners.child_update_signers c signers m.signer e (begin m))) false
      λ x. true

-- Whether `UpdateSigners` panics.
unfoldable pub update_panics : ChildClient → Moment → Epoch → Bool
unfolding is_panic
update_panics (evm_child c signers) m e =
    case_result (EvmSigners.child_update_signers c signers m.signer e (begin m)).0 (λ x. false)
      is_panic
update_panics (solana_child c signers) m e =
    case_result (SolanaSigners.child_update_signers c signers m.signer e (begin m)).0 (λ x. false)
      is_panic
update_panics (ton_child c signers) m e =
    case_result (TonSigners.child_update_signers c signers m.signer e (begin m)).0 (λ x. false)
      is_panic

-- The child client that serves the calls of a container, by the name of the deposit's or epoch's
-- chain, and the moment of each call. A chain without a client has no containers; the answers for it
-- are failures.
pub record Registry : Type 0 where
  pub child : String → Option ChildClient
  pub moment : ℕ → Moment

-- The environment whose chains are served by the clients.
unfoldable pub with_clients : Registry → Environment → Environment
unfolding is_processed withdraw update_signers update_panics
with_clients r env = record env {
  is_processed =
      λ n d. case_option (r.child d.withdrawal_chain_id) none λ c. is_processed c (r.moment n) d;
  withdraw = λ n d.
      case_option (r.child d.withdrawal_chain_id)
        (record { operator = ""; tx_hash = ""; block = pos 0; fails = true; panics = false })
        λ c. withdraw c (r.moment n) d;
  update_signers =
      λ n e. case_option (r.child e.chain_id) false λ c. update_signers c (r.moment n) e;
  update_panics = λ n e. case_option (r.child e.chain_id) false λ c. update_panics c (r.moment n) e;
}
