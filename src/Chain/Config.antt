-- ===== src/Chain/Config.antt =====
-- The configuration of a chain, `Chain` of internal/core/chain/types.go. What the hooks of figure decode
-- is a value whose Go type they switch on; a connection is known by its endpoint.
use relayer_svc.Base.{ℤ, String, Option, none, some, List, [], ◌∷◌}

-- A value of the file: a text, texts, a map of texts, or another value.
pub data Value : Type 0 where
  text_value : String → Value
  texts_value : List String → Value
  map_value : List (String × String) → Value
  other_value : Value

pub record Chain : Type 0 where
  pub id : String
  pub chain_type : String
  pub rpc : Value
  pub bridge_addresses : Value
  pub operators_private_keys : List String
  pub ws_timeout : ℤ
  pub ws_rpc : Value
  pub workers : ℤ
  pub gas_price_multiplier : ℤ
  pub meta : Value

-- The steps of a start: where one has no value, the process panics.
infixl 5 ◌>>=◌
abbrev pub ◌>>=◌ : {A B : Type 0} → Option A → (A → Option B) → Option B
none >>= f = none
some a >>= f = f a

-- The loop of a hook over texts, which ends at the first that it cannot decode.
unfoldable pub decode_all : {A B : Type 0} → (A → Option B) → List A → Option (List B)
decode_all f [] = some []
decode_all f (x ∷ xs) = do y ← f x; ys ← decode_all f xs; some (y ∷ ys)

-- A hook for a value that is a text, and one for texts.
unfoldable pub text_hook : {A : Type 0} → (String → Option A) → Value → Option A
text_hook f (text_value s) = f s
text_hook f v = none

unfoldable pub texts_hook : {A : Type 0} → (String → Option A) → Value → Option (List A)
unfolding decode_all
texts_hook f (texts_value ss) = decode_all f ss
texts_hook f v = none
