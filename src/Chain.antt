-- ===== src/Chain.antt =====
-- internal/core/chain/{types,utils}.go, and what the clients of the chains share: texts as bytes and
-- `math/big` numbers.
pub mod Operators
pub mod Hashes
pub mod Config
use relayer_svc.Base.{
  ℕ, zero, suc, ℤ, ◌+◌, ◌-◌, ◌*◌, ◌/◌, ◌%◌, pos, negsuc, sub_ℕ, String, str_eq, Bool, true, false,
  ◌&&◌, ◌||◌, not, Option, none, some, List, [], ◌∷◌, ◌++◌, ltb, ◌==◌, length, if◌then◌else◌,
  case_option,
}
use relayer_svc.Db.Text.{codes}
use relayer_svc.Observer.Numbers.{read_digits}

abbrev pub Bytes : Type 0
Bytes = List ℕ

-- `core.DefaultNativeTokenAddress`
abbrev pub default_native_token_address : String
default_native_token_address = "0x0000000000000000000000000000000000000000"

-- The chain types of the configuration.
pub data ChainType : Type 0 where
  type_evm type_ton type_solana type_other : ChainType

unfoldable pub type_text : ChainType → String
type_text type_evm = "EVM"
type_text type_ton = "TON"
type_text type_solana = "SOL"
type_text type_other = "other"

-- `Type.Validate`, of a text: true where it returns no error.
unfoldable pub validate_type : String → Bool
unfolding type_text
validate_type s =
    str_eq s (type_text type_evm)
    || str_eq s (type_text type_other)
    || str_eq s (type_text type_ton)
    || str_eq s (type_text type_solana)

-- The bytes of a character and of a text, in UTF-8.
unfoldable pub utf8 : ℕ → Bytes
utf8 c =
    if ltb c 0x80
    then c ∷ []
    else if ltb c 0x800
    then (0xc0 + c / 0x40) ∷ (0x80 + c % 0x40) ∷ []
    else if ltb c 0x10000
    then (0xe0 + c / 0x1000) ∷ (0x80 + c / 0x40 % 0x40) ∷ (0x80 + c % 0x40) ∷ []
    else (0xf0 + c / 0x40000)
      ∷ (0x80 + c / 0x1000 % 0x40)
      ∷ (0x80 + c / 0x40 % 0x40)
      ∷ (0x80 + c % 0x40)
      ∷ []

utf8_all : List ℕ → Bytes
utf8_all [] = []
utf8_all (c ∷ cs) = utf8 c ++ utf8_all cs

-- `[]byte(s)`
unfoldable pub bytes_of : String → Bytes
unfolding utf8_all utf8
bytes_of s = utf8_all (codes s)

-- A number without a sign, of at least one digit.
unfoldable pub read_number : List ℕ → Option ℕ
read_number [] = none
read_number (c ∷ cs) = read_digits 0 (c ∷ cs)

unfoldable pub set_string_codes : List ℕ → Option ℤ
unfolding read_number
set_string_codes [] = none
set_string_codes (c ∷ cs) =
    if c == b'-'
    then case_option (read_number cs) none (λ n. some (sub_ℕ 0 n))
    else if c == b'+'
    then case_option (read_number cs) none (λ n. some (pos n))
    else case_option (read_number (c ∷ cs)) none (λ n. some (pos n))

-- `new(big.Int).SetString(s, 10)`
unfoldable pub set_string : String → Option ℤ
unfolding set_string_codes
set_string s = set_string_codes (codes s)

-- The number of big-endian bytes, `SetBytes`.
unfoldable pub set_bytes_from : ℕ → Bytes → ℕ
set_bytes_from n [] = n
set_bytes_from n (b ∷ bs) = set_bytes_from (n * 0x100 + b) bs

unfoldable pub set_bytes : Bytes → ℕ
unfolding set_bytes_from
set_bytes = set_bytes_from 0

-- The first n elements of a list, and the others.
abbrev pub take {ℓ} : {A : Type ℓ} → ℕ → List A → List A
take zero xs = []
take (suc n) [] = []
take (suc n) (x ∷ xs) = x ∷ take n xs

abbrev pub drop {ℓ} : {A : Type ℓ} → ℕ → List A → List A
drop zero xs = xs
drop (suc n) [] = []
drop (suc n) (x ∷ xs) = drop n xs

-- `strings.TrimPrefix(s, "0x")`, of a text's codes.
unfoldable pub trim_0x : List ℕ → List ℕ
trim_0x [] = []
trim_0x (a ∷ []) = a ∷ []
trim_0x (a ∷ b ∷ cs) = if a == b'0' && b == b'x' then cs else a ∷ b ∷ cs

-- The value of a hexadecimal digit.
unfoldable pub hex_digit : ℕ → Option ℕ
hex_digit c =
    if ltb c b'0'
    then none
    else if ltb c 0x3a
    then some (c - b'0')
    else if ltb c b'A'
    then none
    else if ltb c b'G'
    then some (c - b'A' + 10)
    else if ltb c b'a'
    then none
    else if ltb c b'g'
    then some (c - b'a' + 10)
    else none

two_digits : Option ℕ → Option ℕ → Option Bytes → Option Bytes
two_digits (some h) (some l) (some bs) = some ((h * 16 + l) ∷ bs)
two_digits _ _ _ = none

-- `hex.DecodeString`, of a text's codes.
unfoldable pub decode_string : List ℕ → Option Bytes
unfolding two_digits hex_digit
decode_string [] = some []
decode_string (a ∷ []) = none
decode_string (a ∷ b ∷ cs) = two_digits (hex_digit a) (hex_digit b) (decode_string cs)

first_is_four : Bytes → Bool
first_is_four [] = false
first_is_four (b ∷ bs) = b == 4

-- `HexToCoordinates`, with the coordinates as numbers.
unfoldable pub hex_to_coordinates : String → Option (ℕ × ℕ)
unfolding trim_0x decode_string set_bytes first_is_four
hex_to_coordinates s = case_option (decode_string (trim_0x (codes s))) none λ bytes.
    if length bytes == 65 && first_is_four bytes
    then some (set_bytes (take 32 (drop 1 bytes)), set_bytes (take 32 (drop 33 bytes)))
    else none
