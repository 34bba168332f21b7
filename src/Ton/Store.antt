-- ===== src/Ton/Store.antt =====
-- `IsProcessed` of internal/core/chain/ton/client.go, with what it calls of withdrawal.go, native.go and
-- jetton.go: the account that stores a withdrawal.
use relayer_svc.Base.{ℤ, pos, negsuc, to_uint64, str_eq, Bool, List, [], ◌∷◌, ◌++◌, if◌then◌else◌}
use relayer_svc.Types.{err_parse}
use relayer_svc.Db.{Deposit}
use relayer_svc.Attempt.{Attempt, ◌>>=◌, or_raise}
use relayer_svc.Chain.{Bytes, set_string, set_bytes, default_native_token_address}
use relayer_svc.Outbox.{ask}
use relayer_svc.Ton.{an_int, a_cell, Argument, Client, Wire}
use relayer_svc.Ton.Cells.{get_network_cell, get_address_cell, hash_int}

-- The arguments that both get methods take: the amount, the receiver, the hash, the nonce and the network.
unfoldable pub common_arguments : Client → Deposit → ℤ → Bytes → Bytes → List Argument
common_arguments c d amount receiver network =
    an_int amount
    ∷ a_cell receiver
    ∷ an_int (hash_int c.toolkit d.tx_hash)
    ∷ an_int (pos (to_uint64 d.tx_nonce))
    ∷ a_cell network
    ∷ []

-- `getWithdrawalNativeHash`
unfoldable pub get_withdrawal_native_hash : Client → Deposit → Attempt Wire Bytes
unfolding ask common_arguments
get_withdrawal_native_hash c d = do
  master ← ask c.node.masterchain_info
  network ← or_raise err_parse (get_network_cell c.toolkit d.withdrawal_chain_id)
  receiver ← or_raise err_parse (get_address_cell c.toolkit d.receiver)
  amount ← or_raise err_parse (set_string d.withdrawal_amount)
  ask λ n.
      c.node.run_int n master c.bridge_contract_address "nativeHash"
        (common_arguments c d amount receiver network)

-- `trueBit` of a wrapped token.
abbrev pub wrapped_bit : Bool → ℤ
wrapped_bit b = if b then negsuc 0 else pos 0

-- `getWithdrawalJettonHash`
unfoldable pub get_withdrawal_jetton_hash : Client → Deposit → Attempt Wire Bytes
unfolding ask common_arguments
get_withdrawal_jetton_hash c d = do
  master ← ask c.node.masterchain_info
  network ← or_raise err_parse (get_network_cell c.toolkit d.withdrawal_chain_id)
  receiver ← or_raise err_parse (get_address_cell c.toolkit d.receiver)
  token ← or_raise err_parse (get_address_cell c.toolkit d.withdrawal_token)
  amount ← or_raise err_parse (set_string d.withdrawal_amount)
  ask λ n. c.node.run_int n master c.bridge_contract_address "jettonHash" (
      common_arguments c d amount receiver network
      ++ an_int (wrapped_bit d.is_wrapped_token) ∷ a_cell token ∷ [])

-- `getStoreAddress`
unfoldable pub get_store_address : Client → Deposit → Attempt Wire Bytes
unfolding get_withdrawal_native_hash get_withdrawal_jetton_hash ask
get_store_address c d = do
  hash ←
      if str_eq d.withdrawal_token default_native_token_address
      then get_withdrawal_native_hash c d
      else get_withdrawal_jetton_hash c d
  block ← ask c.node.masterchain_info
  ask λ n.
      c.node.run_address n block c.bridge_contract_address "storeAddress"
        (an_int (pos (set_bytes hash)) ∷ [])

-- `IsProcessed`
unfoldable pub is_processed : Client → Deposit → Attempt Wire Bool
unfolding get_store_address ask
is_processed c d = do
  address ← get_store_address c d
  block ← ask c.node.masterchain_info
  ask λ n. c.node.is_active n block address
