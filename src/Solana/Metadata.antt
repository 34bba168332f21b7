-- ===== src/Solana/Metadata.antt =====
-- `parseTokenMetadata` of internal/core/chain/solana/utils.go, where a value of another type than the
-- asserted one panics, and `getTokenMetadata` of helpers.go.
use relayer_svc.Base.{
  ℕ, zero, suc, to_uint64, String, str_eq, Bool, false, Option, none, some, case_option,
  if◌then◌else◌,
}
use relayer_svc.Types.{err_panic, err_parse, Result, ok, err, case_result}
use relayer_svc.Attempt.{Attempt, pure, ◌>>=◌, ◌>>◌, or_raise}
use relayer_svc.Observer.Numbers.{parse_int}
use relayer_svc.Chain.{Bytes}
use relayer_svc.Outbox.{ask}
use relayer_svc.Solana.{
  Json, json_string, json_array, json_object, Items, no_items, item, Fields, no_fields, field,
  TokenMetadata, Toolkit, Client, Wire,
}

unfoldable pub as_string : Json → Option String
as_string (json_string s) = some s
as_string _ = none

unfoldable pub as_array : Json → Option Items
as_array (json_array xs) = some xs
as_array _ = none

unfoldable pub as_object : Json → Option Fields
as_object (json_object fs) = some fs
as_object _ = none

-- The value of a key, the last one if it is there twice.
unfoldable pub lookup : String → Fields → Option Json
lookup key no_fields = none
lookup key (field k v fs) =
    let rest = lookup key fs in case_option rest (if str_eq k key then some v else none) some

-- The item of an index.
unfoldable pub nth : ℕ → Items → Option Json
nth n no_items = none
nth zero (item x xs) = some x
nth (suc n) (item x xs) = nth n xs

-- `v[key]` with its type asserted.
unfoldable pub member : {S A : Type 0} → (Json → Option A) → String → Fields → Attempt S A
unfolding lookup
member kind key fields = do
  value ← or_raise err_panic (lookup key fields)
  or_raise err_panic (kind value)

unfoldable pub modify {ℓ} : {S : Type ℓ} → (S → S) → Attempt S Unit
modify f s = (ok tt, f s)

-- A loop over items that stops at the first error.
unfoldable pub each {ℓ} : {S : Type ℓ} → (Json → Attempt S Unit) → Items → Attempt S Unit
each f no_items = pure tt
each f (item x xs) = f x >> each f xs

is_nonce : Json → Bool
is_nonce (json_string s) = str_eq s "nonce"
is_nonce _ = false

-- The pair's second item, as the nonce.
unfoldable pub read_nonce : Items → Attempt TokenMetadata Unit
unfolding nth as_string modify
read_nonce pair = do
  value ← or_raise err_panic (nth 1 pair)
  text ← or_raise err_panic (as_string value)
  nonce ← or_raise err_parse (parse_int text)
  modify λ t. record t { nonce = to_uint64 nonce }

-- A pair of the additional metadata.
unfoldable pub read_pair : Json → Attempt TokenMetadata Unit
unfolding nth as_array is_nonce read_nonce
read_pair json = do
  pair ← or_raise err_panic (as_array json)
  key ← or_raise err_panic (nth 0 pair)
  if is_nonce key then read_nonce pair else pure tt

-- The case of "tokenMetadata".
unfoldable pub read_state : Fields → Attempt TokenMetadata Unit
unfolding member as_string as_array modify each read_pair
read_state state = do
  name ← member as_string "name" state
  symbol ← member as_string "symbol" state
  uri ← member as_string "uri" state
  (modify λ t. record t { name = name; symbol = symbol; uri = uri })
  additional ← member as_array "additionalMetadata" state
  each read_pair additional

-- An extension of the account.
unfoldable pub read_extension : Json → Attempt TokenMetadata Unit
unfolding as_object as_string member read_state
read_extension json = do
  extension ← or_raise err_panic (as_object json)
  name ← member as_string "extension" extension
  state ← member as_object "state" extension
  if str_eq name "tokenMetadata" then read_state state else pure tt

abbrev pub no_metadata : TokenMetadata
no_metadata = record { name = ""; symbol = ""; uri = ""; nonce = 0 }

unfoldable pub read_account : Json → Attempt TokenMetadata Unit
unfolding as_object as_array member each read_extension
read_account json = do
  account ← or_raise err_panic (as_object json)
  parsed ← member as_object "parsed" account
  info ← member as_object "info" parsed
  extensions ← member as_array "extensions" info
  each read_extension extensions

-- `parseTokenMetadata`
unfoldable pub parse_token_metadata : Toolkit → Bytes → Result TokenMetadata
unfolding read_account
parse_token_metadata k bytes =
    case_option (k.unmarshal bytes) (err err_panic)
      λ json. let (r, t) = read_account json no_metadata in case_result r (λ _. ok t) err

-- `getTokenMetadata`
unfoldable pub get_token_metadata : Client → Bytes → Attempt Wire TokenMetadata
unfolding ask parse_token_metadata ◌>>=◌
get_token_metadata c token = do
  bytes ← ask λ n. c.node.account_json n token
  λ w. (parse_token_metadata c.toolkit bytes, w)
