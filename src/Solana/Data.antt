-- ===== src/Solana/Data.antt =====
-- The hashes, addresses and signatures of internal/core/chain/solana/{helpers,utils}.go.
use relayer_svc.Base.{
  ℕ, zero, suc, ◌-◌, ◌+◌, ◌/◌, ◌%◌, ◌^◌, ℤ, pos, negsuc, to_uint64, String, str_eq, not, Option,
  none, some, [], ◌∷◌, ◌++◌, length, ◌==◌, ltb, leb, case_option, if◌then◌else◌,
}
use relayer_svc.Db.{Deposit}
use relayer_svc.Observer.Numbers.{parse_uint}
use relayer_svc.Chain.{Bytes, bytes_of, set_string, take, drop, default_native_token_address}
use relayer_svc.Types.{err_parse}
use relayer_svc.Attempt.{Attempt, pure, ◌>>=◌, or_raise}
use relayer_svc.Solana.{Toolkit, Client, WithdrawalContext, Wire}

abbrev pub zeros : ℕ → Bytes
zeros zero = []
zeros (suc n) = 0 ∷ zeros n

-- `copy` into an array of n bytes.
unfoldable pub copied : ℕ → Bytes → Bytes
copied n bytes = take n (bytes ++ zeros n)

-- The n low bytes of a number, the least first.
unfoldable pub little_endian : ℕ → ℕ → Bytes
little_endian zero x = []
little_endian (suc n) x = x % 0x100 ∷ little_endian n (x / 0x100)

-- `binary.LittleEndian.PutUint64`
abbrev pub put_uint64 : ℕ → Bytes
put_uint64 = little_endian 8

-- `(*big.Int).Uint64`: the low 64 bits of the absolute value.
unfoldable pub big_uint64 : ℤ → ℕ
big_uint64 (pos n) = n % 2 ^ 64
big_uint64 (negsuc n) = (n + 1) % 2 ^ 64

-- `getUid`
unfoldable pub get_uid : Toolkit → String → ℤ → Bytes
unfolding big_uint64
get_uid k tx_hash nonce = k.sha256 (bytes_of tx_hash ++ put_uint64 (big_uint64 nonce))

-- The buffer that both hashes are of, once the receiver is read.
unfoldable pub hash_buffer : Client → Deposit → ℕ → Bytes → Bytes → Option Bytes
hash_buffer c d amount uid receiver =
    let buffer =
      bytes_of "withdraw" ++ bytes_of c.bridge_id ++ put_uint64 amount ++ uid ++ receiver in
    if str_eq d.withdrawal_token default_native_token_address
    then some (c.toolkit.sha256 buffer)
    else case_option (c.toolkit.public_key_from_base58 d.withdrawal_token) none
        λ token. some (c.toolkit.sha256 (buffer ++ token))

-- `getSignHash`
unfoldable pub get_sign_hash : Client → Deposit → Option Bytes
unfolding hash_buffer
get_sign_hash c d = case_option (parse_uint 64 d.withdrawal_amount) none λ amount.
    let uid = c.toolkit.sha256 (bytes_of d.tx_hash ++ put_uint64 (to_uint64 d.tx_nonce)) in
    case_option (c.toolkit.public_key_from_base58 d.receiver) none (hash_buffer c d amount uid)

-- `getWithdrawalHash`
unfoldable pub get_withdrawal_hash : Client → Deposit → Option Bytes
unfolding hash_buffer get_uid
get_withdrawal_hash c d = case_option (set_string d.withdrawal_amount) none λ amount.
    let uid = get_uid c.toolkit d.tx_hash d.tx_nonce in
    case_option (c.toolkit.public_key_from_base58 d.receiver) none
      (hash_buffer c d (big_uint64 amount) uid)

-- `getWithdrawalPDA`
unfoldable pub get_withdrawal_pda : Client → Bytes → Option Bytes
get_withdrawal_pda c hash =
    c.toolkit.find_program_address (bytes_of "withdraw" ∷ hash ∷ bytes_of c.bridge_id ∷ [])

-- The last byte of a signature, normalized; none if it is no recovery identifier.
unfoldable pub recovery_id : Bytes → Option ℕ
recovery_id [] = none
recovery_id (v ∷ rest) =
    let id = if leb 27 v then v - 27 else v in if ltb 3 id then none else some id

-- `processSignature`. A wrong length is wrapped as no error at all, so it is no failure.
unfoldable pub process_signature : Toolkit → String → Option (Bytes × ℕ)
unfolding recovery_id
process_signature k signature = case_option (k.decode_hex signature) none λ bytes.
    if not (length bytes == 65)
    then some (zeros 64, 0)
    else case_option (recovery_id (drop 64 bytes)) none λ id. some (copied 64 (take 64 bytes), id)

unfoldable pub authority_of : Client → Option Bytes
authority_of c = c.toolkit.find_program_address (bytes_of "authority" ∷ bytes_of c.bridge_id ∷ [])

-- The token's account, which is all zeros for the native token.
unfoldable pub token_account : Toolkit → String → Option Bytes
token_account k token =
    if str_eq token default_native_token_address
    then some (zeros 32)
    else k.public_key_from_base58 token

-- `getWithdrawalContext`
unfoldable pub get_withdrawal_context : Client → Deposit → Attempt Wire WithdrawalContext
unfolding token_account authority_of
get_withdrawal_context c d = do
  (sig, rec_id) ← or_raise err_parse (process_signature c.toolkit d.signature)
  hash ← or_raise err_parse (get_sign_hash c d)
  pda ← or_raise err_parse (get_withdrawal_pda c hash)
  amount ← or_raise err_parse (set_string d.withdrawal_amount)
  receiver ← or_raise err_parse (c.toolkit.public_key_from_base58 d.receiver)
  token ← or_raise err_parse (token_account c.toolkit d.withdrawal_token)
  authority ← or_raise err_parse (authority_of c)
  pure (record {
    receiver = receiver;
    token = token;
    withdrawal_pda = pda;
    authority = authority;
    bridge_id = c.bridge_id;
    uid = copied 32 (get_uid c.toolkit d.tx_hash d.tx_nonce);
    sig = sig;
    rec_id = rec_id;
    withdrawal_tx_hash = copied 32 hash;
    tx_nonce = to_uint64 d.tx_nonce;
    amount = big_uint64 amount;
  })

last_byte : Bytes → ℕ
last_byte [] = 0
last_byte (b ∷ bs) = b

-- `parseSignatureAndSigner`. A wrong length returns zeros and no error.
unfoldable pub parse_signature_and_signer : Toolkit → String → String → Option (Bytes × ℕ × Bytes)
unfolding last_byte
parse_signature_and_signer k signature signer = case_option (k.decode_hex signature) none λ sig.
    if not (length sig == 65)
    then some (zeros 64, 0, [])
    else case_option (k.decode_hex signer) none λ key.
      if not (length key == 33)
      then some (zeros 64, 0, [])
      else some (copied 64 (take 64 sig), last_byte (drop 64 sig), key)
