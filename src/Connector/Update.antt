-- ===== src/Connector/Update.antt =====
-- internal/core/connector/{update_tx,main}.go: reporting withdrawals to the core.
use relayer_svc.Base.{
  ℕ, ◌+◌, ◌*◌, ◌%◌, ◌^◌, Option, none, some, List, [], ◌∷◌, ◌==◌, if◌then◌else◌, State, pure, ◌>>=◌,
}
use relayer_svc.Types.{Error, err_core, Result, ok, err}
use relayer_svc.Db.{Deposit}
use relayer_svc.Env.{Environment, World, Transaction, CoreTx}
use relayer_svc.Connector.{get_deposit, to_transaction}

abbrev pub gas_limit : ℕ
gas_limit = 3_000_000

abbrev pub tx_code_success : ℕ
tx_code_success = 0

abbrev pub Message : Type 0
Message = Option Transaction

-- `buildTx`: the account's sequence is asked for once the messages are accepted.
unfoldable pub build_tx : Environment → ℕ → List Message → State World (Option CoreTx)
build_tx env fee_amount msgs w =
    let w' = record w { calls = w.calls + 1 } in
    if env.set_msgs msgs
    then elim (env.account_sequence w.calls) [
      | none ↦ (none, w')
      | some sequence ↦
          let tx : CoreTx = record {
            messages = msgs;
            gas_limit = gas_limit;
            fee_amount = fee_amount;
            sequence = sequence;
          } in
          (if env.signs tx then some tx else none, w')
    ]
    else (none, w)

-- `transactor.BroadcastTx`, and the test of the response's code.
unfoldable pub broadcast : Environment → CoreTx → State World (Option Error)
broadcast env tx w = (
  elim (env.broadcast_tx w.calls tx) [
    | none ↦ some err_core
    | some code ↦ if code == tx_code_success then none else some err_core
  ],
  record w { core_txs = tx ∷ w.core_txs; calls = w.calls + 1 },
)

-- `submitMsgs`, at the configured gas price; the fee wraps at 64 bits.
unfoldable pub submit_msgs : Environment → ℕ → List Message → State World (Option Error)
unfolding build_tx broadcast
submit_msgs env min_gas_price [] = pure none
submit_msgs env min_gas_price (m ∷ ms) = do
  built ← build_tx env (gas_limit * min_gas_price % 2 ^ 64) (m ∷ ms)
  elim built [ none ↦ pure (some err_core) | some tx ↦ broadcast env tx ]

unfoldable pub put : Message → Result (List Message) → Result (List Message)
put m (ok ms) = ok (m ∷ ms)
put m (err e) = err e

-- One round of the loop, before the rounds that follow it.
unfoldable pub place :
    Deposit → Deposit → List Deposit → Result (List Message) → List Deposit × Result (List Message)
place d core_data ds rest = elim core_data.withdrawal_tx_hash [
  | some hash ↦ (d ∷ ds, put none rest)
  | none ↦
      let d' = record d { referral_id = core_data.referral_id } in
      (d' ∷ ds, put (some (to_transaction d')) rest)
]

-- The batch, whose deposits are written through their pointers, and the messages; a deposit that the
-- core has a withdrawal hash for leaves its place in `messages` nil.
unfoldable pub collect :
    Environment → List Deposit → State World (List Deposit × Result (List Message))
unfolding place put
collect env [] = pure ([], ok [])
collect env (d ∷ ds) = do
  found ← get_deposit env d.identifier
  elim found [
    | err e ↦ pure (d ∷ ds, err e)
    | ok core_data ↦ do (ds', rest) ← collect env ds; pure (place d core_data ds' rest)
  ]

-- `UpdateTxInfo`
unfoldable pub update_tx_info :
    Environment → ℕ → List Deposit → State World (List Deposit × Option Error)
update_tx_info env min_gas_price deposits = do
  (deposits', messages) ← collect env deposits
  elim messages [
    | err e ↦ pure (deposits', some e)
    | ok ms ↦ do e ← submit_msgs env min_gas_price ms; pure (deposits', e)
  ]
