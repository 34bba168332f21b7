-- ===== src/Ton/Cells.antt =====
-- The cells of internal/core/chain/ton/{utils,native,jetton,signer}.go.
use relayer_svc.Base.{
  ℕ, zero, suc, ◌-◌, ◌*◌, ℤ, pos, to_int64, String, Option, none, some, [], ◌∷◌, ◌++◌, length, ◌==◌,
  ltb, case_option, if◌then◌else◌,
}
use relayer_svc.Types.{err_panic, err_parse, ok, case_result}
use relayer_svc.Db.{Deposit, Epoch}
use relayer_svc.Db.Text.{codes}
use relayer_svc.Attempt.{Attempt, pure, ◌>>=◌, or_raise}
use relayer_svc.Observer.Numbers.{parse_uint}
use relayer_svc.Chain.{
  Bytes, bytes_of, set_string, set_bytes, trim_0x, decode_string, hex_to_coordinates,
}
use relayer_svc.Outbox.{ask}
use relayer_svc.Ton.{
  store_uint, store_int, store_big_int, store_big_uint, store_slice, store_addr, store_bool_bit,
  store_ref, Toolkit, a_cell, Client, Wire,
}

-- The constants of types.go.
abbrev pub op_code_bit_size : ℕ
op_code_bit_size = 32

abbrev pub network_cell_size_bytes : ℕ
network_cell_size_bytes = 32

abbrev pub network_cell_size_bit : ℕ
network_cell_size_bit = 256

abbrev pub signature_bit_size : ℕ
signature_bit_size = 520

abbrev pub amount_bit_size : ℕ
amount_bit_size = 257

abbrev pub hash_bit_size : ℕ
hash_bit_size = 257

abbrev pub nonce_bit_size : ℕ
nonce_bit_size = 257

abbrev pub repeat : ℕ → ℕ → Bytes
repeat b zero = []
repeat b (suc n) = b ∷ repeat b n

-- `fillBytesToSize`
unfoldable pub fill_bytes_to_size : String → ℕ → ℕ → Option Bytes
fill_bytes_to_size str size fill =
    let size' = if size == 0 then 32 else size in
    let raw = bytes_of str in
    if ltb size' (length raw) then none else some (raw ++ repeat fill (size' - length raw))

-- `getNetworkCell`
unfoldable pub get_network_cell : Toolkit → String → Option Bytes
unfolding fill_bytes_to_size
get_network_cell k network =
    case_option (fill_bytes_to_size network network_cell_size_bytes 0) none
      λ bytes. k.build (store_slice bytes network_cell_size_bit ∷ [])

-- `getSignatureCell`
unfoldable pub get_signature_cell : Toolkit → String → Option Bytes
get_signature_cell k signature =
    case_option (k.decode_hex signature) none
      λ bytes. k.build (store_slice bytes signature_bit_size ∷ [])

-- `getAddressCell`
unfoldable pub get_address_cell : Toolkit → String → Option Bytes
get_address_cell k addr =
    case_option (k.parse_addr addr) none λ a. k.build (store_addr (some a) ∷ [])

-- `txHashToBytes32`
unfoldable pub tx_hash_to_bytes32 : Toolkit → String → Bytes
tx_hash_to_bytes32 k s =
    case_option (k.decode_hex s) (k.keccak256 (bytes_of s))
      λ b. if length b == 32 then b else k.keccak256 (bytes_of s)

abbrev pub hash_int : Toolkit → String → ℤ
hash_int k s = pos (set_bytes (tx_hash_to_bytes32 k s))

abbrev pub withdraw_native_code : ℕ
withdraw_native_code = 1289667639

abbrev pub withdraw_jetton_code : ℕ
withdraw_jetton_code = 39151229

-- The two cells of a native withdrawal; a value that does not fit panics.
unfoldable pub native_body : Toolkit → Deposit → Bytes → Bytes → Bytes → ℤ → Attempt Wire Bytes
native_body k d network signature receiver amount = do
  cell1 ← or_raise err_panic (
      k.build
        (store_big_int d.tx_nonce nonce_bit_size ∷ store_ref signature ∷ store_ref network ∷ []))
  or_raise err_panic (
      k.build (
        store_uint withdraw_native_code op_code_bit_size
        ∷ store_big_int amount amount_bit_size
        ∷ store_addr (some receiver)
        ∷ store_big_int (hash_int k d.tx_hash) hash_bit_size
        ∷ store_ref cell1
        ∷ []))

-- `buildWithdrawNativeCell`
unfoldable pub build_withdraw_native_cell : Client → Deposit → Attempt Wire Bytes
unfolding native_body
build_withdraw_native_cell c d = do
  network ← or_raise err_parse (get_network_cell c.toolkit d.withdrawal_chain_id)
  signature ← or_raise err_parse (get_signature_cell c.toolkit d.signature)
  receiver ← or_raise err_parse (c.toolkit.parse_addr d.receiver)
  amount ← or_raise err_parse (set_string d.withdrawal_amount)
  native_body c.toolkit d network signature receiver amount

-- `deriveJettonAddress`
unfoldable pub derive_jetton_address : Client → Bytes → Bytes → Attempt Wire Bytes
unfolding ask
derive_jetton_address c owner jetton = do
  block ← ask c.node.masterchain_info
  query ← or_raise err_parse (c.toolkit.build (store_addr (some owner) ∷ []))
  ask λ n. c.node.run_address n block jetton "get_wallet_address" (a_cell query ∷ [])

-- A call whose error is overwritten: its value is nil.
unfoldable pub or_nil : {A : Type 0} → Attempt Wire A → Attempt Wire (Option A)
or_nil m w = let (r, w') = m w in (ok (case_result r some λ e. none), w')

-- The three cells of a jetton's withdrawal.
unfoldable pub jetton_body :
    Toolkit → Deposit → Bytes → Bytes → Bytes → Option Bytes → Bytes → ℤ → Attempt Wire Bytes
jetton_body k d signature network jetton bridge_jetton receiver amount = do
  cell2 ← or_raise err_panic (
      k.build (
        store_big_int (pos 500000000) amount_bit_size
        ∷ store_big_int (pos 1000000000) amount_bit_size
        ∷ []))
  cell1 ← or_raise err_panic (
      k.build (
        store_big_int d.tx_nonce nonce_bit_size
        ∷ store_ref network
        ∷ store_bool_bit d.is_wrapped_token
        ∷ store_ref signature
        ∷ store_addr (some jetton)
        ∷ store_addr bridge_jetton
        ∷ store_ref cell2
        ∷ []))
  or_raise err_panic (
      k.build (
        store_uint withdraw_jetton_code op_code_bit_size
        ∷ store_addr (some receiver)
        ∷ store_big_int amount amount_bit_size
        ∷ store_big_int (hash_int k d.tx_hash) amount_bit_size
        ∷ store_ref cell1
        ∷ []))

-- The amount is no number: nil is returned, and the error that is wrapped is nil too.
unfoldable pub finish_jetton : Option ℤ → (ℤ → Attempt Wire Bytes) → Attempt Wire (Option Bytes)
finish_jetton none f = pure none
finish_jetton (some amount) f = f amount >>= λ body. pure (some body)

-- `buildWithdrawJettonCell`
unfoldable pub build_withdraw_jetton_cell : Client → Deposit → Attempt Wire (Option Bytes)
unfolding derive_jetton_address or_nil jetton_body finish_jetton
build_withdraw_jetton_cell c d = do
  signature ← or_raise err_parse (get_signature_cell c.toolkit d.signature)
  network ← or_raise err_parse (get_network_cell c.toolkit d.withdrawal_chain_id)
  jetton ← or_raise err_parse (c.toolkit.parse_addr d.withdrawal_token)
  bridge_jetton ← or_nil (derive_jetton_address c c.bridge_contract_address jetton)
  receiver ← or_raise err_parse (c.toolkit.parse_addr d.receiver)
  finish_jetton (set_string d.withdrawal_amount)
      (jetton_body c.toolkit d signature network jetton bridge_jetton receiver)

-- `buildUpdateSignerCell`
unfoldable pub build_update_signer_cell : Client → Epoch → Attempt Wire Bytes
build_update_signer_cell c e = do
  (x, y) ← or_raise err_parse (hex_to_coordinates e.signer)
  bytes ← or_raise err_parse (decode_string (trim_0x (codes e.signature)))
  signature ← or_raise err_panic (c.toolkit.build (store_slice bytes (length bytes * 8) ∷ []))
  nonce ← or_raise err_parse (parse_uint 64 e.nonce)
  or_raise err_panic (
      c.toolkit.build (
        store_uint 0x12312324 32
        ∷ store_uint 0x04 8
        ∷ store_big_uint x 256
        ∷ store_big_uint y 256
        ∷ store_int (to_int64 e.start_time) 64
        ∷ store_int (to_int64 e.end_time) 64
        ∷ store_uint nonce 64
        ∷ store_bool_bit e.signature_mode
        ∷ store_ref signature
        ∷ []))
