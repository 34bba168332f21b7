-- ===== src/Chain/Hashes.antt =====
-- The patterns of transaction hashes of internal/core/common.go, `TransactionHashValid` of the clients
-- of the chains, and `ValidateTxHash` of internal/api/common/common.go.
use relayer_svc.Base.{
  ℕ, ◌≡◌, refl, ap, inl, inr, Bool-cases, arith, String, Bool, true, false, not, ◌&&◌, ◌||◌, List,
  [], ◌∷◌, length, leb, ◌==◌, Option, none, some, if◌then◌else◌,
}
use relayer_svc.Types.{Error, err_parse}
use relayer_svc.Db.Text.{codes}
use relayer_svc.Db.Keys.{has_slash}
use relayer_svc.Chain.{ChainType, type_evm, type_ton, type_solana, type_other}

-- Every code is in the class of the pattern.
abbrev pub all_in : (ℕ → Bool) → List ℕ → Bool
all_in p [] = true
all_in p (c ∷ cs) = p c && all_in p cs

abbrev pub between : ℕ → ℕ → ℕ → Bool
between a b c = leb a c && leb c b

-- `[a-fA-F0-9]`
unfoldable pub hexadecimal : ℕ → Bool
hexadecimal c = between b'a' b'f' c || between b'A' b'F' c || between b'0' b'9' c

-- `[1-9A-HJ-NP-Za-km-z]`
unfoldable pub base58 : ℕ → Bool
base58 c =
    between b'1' b'9' c
    || between b'A' b'H' c
    || between b'J' b'N' c
    || between b'P' b'Z' c
    || between b'a' b'k' c
    || between b'm' b'z' c

-- `DefaultTransactionHashPattern`
unfoldable pub default_pattern : List ℕ → Bool
unfolding hexadecimal
default_pattern (a ∷ b ∷ cs) = a == b'0' && b == b'x' && length cs == 64 && all_in hexadecimal cs
default_pattern _ = false

-- `SolanaTransactionHashPattern`
unfoldable pub solana_pattern : List ℕ → Bool
unfolding base58
solana_pattern cs = between 86 88 (length cs) && all_in base58 cs

-- `TransactionHashValid` of the client of a type.
unfoldable pub transaction_hash_valid : ChainType → String → Bool
unfolding default_pattern solana_pattern
transaction_hash_valid type_solana hash = solana_pattern (codes hash)
transaction_hash_valid _ hash = default_pattern (codes hash)

-- `ValidateTxHash`
unfoldable pub validate_tx_hash : String → ChainType → Option Error
unfolding transaction_hash_valid
validate_tx_hash hash t = if not (transaction_hash_valid t hash) then some err_parse else none

all_in-has_slash :
    (p : ℕ → Bool) (cs : List ℕ) → p b'/' ≡ false → all_in p cs ≡ true → has_slash cs ≡ false
unfolding has_slash
all_in-has_slash p [] e h = refl
all_in-has_slash p (c ∷ cs) e h = elim (Bool-cases (c == b'/')) [
  | inl q ↦ let at : c ≡ b'/' = ground (arith, q) in absurd (ground (arith, h, e, ap p at))
  | inr q ↦ ground (arith, q, h, all_in-has_slash p cs e)
]

default_pattern-has_slash : (cs : List ℕ) → default_pattern cs ≡ true → has_slash cs ≡ false
unfolding default_pattern has_slash
default_pattern-has_slash [] h = absurd (ground (arith, h))
default_pattern-has_slash (a ∷ []) h = absurd (ground (arith, h))
default_pattern-has_slash (a ∷ b ∷ cs) h =
    ground (arith, h, all_in-has_slash hexadecimal cs (unfold hexadecimal in refl))

solana_pattern-has_slash : (cs : List ℕ) → solana_pattern cs ≡ true → has_slash cs ≡ false
unfolding solana_pattern
solana_pattern-has_slash cs h =
    all_in-has_slash base58 cs (unfold base58 in refl) (ground (arith, h))

-- A valid hash has no slash.
pub transaction_hash_valid-has_slash :
    (t : ChainType) (hash : String)
    → transaction_hash_valid t hash ≡ true
    → has_slash (codes hash) ≡ false
unfolding transaction_hash_valid
transaction_hash_valid-has_slash type_solana hash h = solana_pattern-has_slash (codes hash) h
transaction_hash_valid-has_slash type_evm hash h = default_pattern-has_slash (codes hash) h
transaction_hash_valid-has_slash type_ton hash h = default_pattern-has_slash (codes hash) h
transaction_hash_valid-has_slash type_other hash h = default_pattern-has_slash (codes hash) h
