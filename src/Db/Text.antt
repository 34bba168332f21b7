-- ===== src/Db/Text.antt =====
-- `DepositIdentifier.String()` of internal/db/deposits.go, "chain/hash/nonce": the key of the
-- broadcaster's cache. A text is the list of its code points.
use Prim.Native.Char.{code}
use relayer_svc.Base.{
  ℕ, zero, suc, ◌+◌, ◌/◌, ◌%◌, ◌≡◌, ◌↔◌, refl, ℤ, pos, negsuc, String, Bool, true, false, ◌&&◌,
  List, [], ◌∷◌, ◌++◌, ltb, ◌==◌, if◌then◌else◌, arith,
}
use relayer_svc.Db.{DepositIdentifier}

abbrev pub codes : String → List ℕ
codes String.[] = []
codes (String.◌∷◌ c s) = code c ∷ codes s

abbrev pub slash : ℕ
slash = b'/'

-- `%d` of a natural number; the number itself is enough fuel.
unfoldable pub decimal_fuel : ℕ → ℕ → List ℕ
decimal_fuel zero n = (b'0' + n) ∷ []
decimal_fuel (suc fuel) n =
    let rest = decimal_fuel fuel (n / 10) in
    if ltb n 10 then (b'0' + n) ∷ [] else rest ++ (b'0' + n % 10) ∷ []

unfoldable pub decimal : ℕ → List ℕ
unfolding decimal_fuel
decimal n = decimal_fuel n n

-- `%d` of an int64.
unfoldable pub format_int : ℤ → List ℕ
unfolding decimal
format_int (pos n) = decimal n
format_int (negsuc n) = b'-' ∷ decimal (suc n)

unfoldable pub id_string : DepositIdentifier → List ℕ
unfolding format_int
id_string id = codes id.chain_id ++ (slash ∷ (codes id.tx_hash ++ (slash ∷ format_int id.tx_nonce)))

-- Two keys are the same text.
unfoldable pub text_eq : List ℕ → List ℕ → Bool
text_eq [] [] = true
text_eq (a ∷ s) (b ∷ t) = a == b && text_eq s t
text_eq _ _ = false

pub text_eq_iff : (s t : List ℕ) → (text_eq s t ≡ true) ↔ (s ≡ t)
unfolding text_eq
text_eq_iff [] [] = ground arith
text_eq_iff [] (b ∷ t) = ground arith
text_eq_iff (a ∷ s) [] = ground arith
text_eq_iff (a ∷ s) (b ∷ t) = ground (arith, text_eq_iff s t)

formatted : format_int (negsuc 41) ≡ codes "-42"
unfolding format_int
formatted = refl
