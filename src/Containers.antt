-- ===== src/Containers.antt =====
-- internal/core/broadcaster/containers/{common,types,utils}.go: the calls of a chain and of the core
-- node that the containers share. A container is a task of a network worker; the `*db.Deposit` that
-- it owns is passed along and returned.
pub mod Broadcast
pub mod Catchup
pub mod Signers
pub mod Frame
pub mod Returned
pub mod Confirmed
use relayer_svc.Base.{
  ◌+◌, Bool, Option, none, some, ◌∷◌, String, State, pure, ◌>>=◌, ◌>>◌, if◌then◌else◌,
}
use relayer_svc.Types.{Error, err_chain, err_panic}
use relayer_svc.Db.{Deposit, Epoch}
use relayer_svc.Env.{Environment, Withdrawal, World}

abbrev pub default_withdrawal_hash : String
default_withdrawal_hash = "0x0000000000000000000000000000000000000000"

-- What `Run` returns: a deposit that may be nil, and an error.
abbrev pub Outcome : Type 0
Outcome = Option Deposit × Option Error

-- `chainClient.IsProcessed`.
unfoldable pub check_processed : Environment → Deposit → State World (Option Bool)
check_processed env d w = (env.is_processed w.calls d, record w { calls = w.calls + 1 })

-- The fields that `executeWithdrawal` writes from the chain's answer.
unfoldable pub with_withdrawal : Withdrawal → Deposit → Deposit
with_withdrawal answer d = record d {
  withdrawal_tx_hash = some answer.tx_hash;
  withdrawal_chain_block = answer.block;
  operator = answer.operator;
}

-- `chainClient.Withdraw`: the call that moves funds, so it is recorded.
unfoldable pub withdraw : Environment → Deposit → State World Withdrawal
withdraw env d w = (env.withdraw w.calls d, record w { sent = d ∷ w.sent; calls = w.calls + 1 })

-- `tendermintClient.ABCIInfo`, and the block height that it reports.
unfoldable pub with_core_block : Environment → Deposit → State World Deposit
with_core_block env d w =
    let w' = record w { calls = w.calls + 1 } in
    elim (env.abci_height w.calls) [
      | none ↦ (d, w')
      | some height ↦ (record d { withdrawal_core_block = height }, w')
    ]

-- Where ABCIInfo fails the function returns `errors.Wrap(err, …)` of the withdrawal's own `err`,
-- which is nil when the withdrawal succeeded. A panic of the chain's client is `err_panic`.
unfoldable pub execute_withdrawal : Environment → Deposit → State World (Deposit × Option Error)
unfolding withdraw with_withdrawal with_core_block
execute_withdrawal env d = do
  answer ← withdraw env d
  if answer.panics then pure (d, some err_panic) else do
    d' ← with_core_block env (with_withdrawal answer d)
    pure (d', if answer.fails then some err_chain else none)

unfoldable pub execute_update_signers : Environment → Epoch → State World (Option Error)
execute_update_signers env epoch w = (
  if env.update_panics w.calls epoch
      then some err_panic
      else if env.update_signers w.calls epoch
      then none
      else some err_chain,
  record w { calls = w.calls + 1 },
)

-- Where the chain's client panicked the process dies: nothing more is done, and no deposit comes back.
unfoldable pub unless_panic :
    {A : Type 0}
    → (Error → State World (Option A × Option Error))
    → Error
    → State World (Option A × Option Error)
unless_panic f err_panic = pure (none, some err_panic)
unless_panic f e = f e

-- `if deposit.WithdrawalTxHash == nil { … = ptr(defaultWithdrawalHash) }`
unfoldable pub or_default_hash : Deposit → Deposit
or_default_hash d = elim d.withdrawal_tx_hash [
  | none ↦ record d { withdrawal_tx_hash = some default_withdrawal_hash }
  | some hash ↦ d
]
