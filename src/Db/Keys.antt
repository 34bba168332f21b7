-- ===== src/Db/Keys.antt =====
-- Which deposits the cache's keys tell apart.

use text.Mathlib.TextEquality.{Char-path}
use relayer_svc.Base.{
  ℕ, zero, suc, ◌+◌, ◌-◌, ◌*◌, ◌/◌, ◌%◌, ◌≤◌, ◌≡◌, refl, sym, ap, subst, inl, inr, ℤ, pos, negsuc,
  String, Bool, false, ◌||◌, List, [], ◌∷◌, ◌++◌, ltb, ◌==◌, arith, All, All-append, Bool-cases,
}
use relayer_svc.Db.{DepositIdentifier}
use relayer_svc.Db.Text.{codes, slash, decimal_fuel, decimal, format_int, id_string}

-- The text has a slash in it.
unfoldable pub has_slash : List ℕ → Bool
has_slash [] = false
has_slash (c ∷ cs) = c == slash || has_slash cs

-- The number that a text of digits stands for.
value_from : ℕ → List ℕ → ℕ
value_from n [] = n
value_from n (c ∷ cs) = value_from (n * 10 + (c - b'0')) cs

value-snoc :
    (n c : ℕ) (cs : List ℕ) → value_from n (cs ++ c ∷ []) ≡ value_from n cs * 10 + (c - b'0')
unfolding value_from
value-snoc n c [] = refl
value-snoc n c (d ∷ cs) = value-snoc (n * 10 + (d - b'0')) c cs

value-decimal_fuel : (fuel n : ℕ) → n ≤ fuel → value_from 0 (decimal_fuel fuel n) ≡ n
unfolding decimal_fuel value_from
value-decimal_fuel zero n h = omega arith
value-decimal_fuel (suc fuel) n h = ground (
  arith,
  value-snoc 0 (b'0' + n % 10) (decimal_fuel fuel (n / 10)),
  value-decimal_fuel fuel (n / 10),
)

decimal_injective : (m n : ℕ) → decimal m ≡ decimal n → m ≡ n
unfolding decimal
decimal_injective m n h =
    omega (arith, value-decimal_fuel m m, value-decimal_fuel n n, ap (value_from 0) h)

digits_only : (fuel n : ℕ) → n ≤ fuel → All (λ c. b'0' ≤ c) (decimal_fuel fuel n)
unfolding decimal_fuel
digits_only zero n h = (omega arith, tt)
digits_only (suc fuel) n h = elim (Bool-cases (ltb n 10)) [
  | inl small ↦ rw small (omega arith, tt)
  | inr large ↦
      rw large (All-append _ _ _ (digits_only fuel (n / 10) (omega arith)) (omega arith, tt))
]

rest_of : List ℕ → List ℕ
rest_of [] = []
rest_of (c ∷ cs) = cs

no_sign : (n : ℕ) (cs : List ℕ) → decimal n ≡ b'-' ∷ cs → ⊥
unfolding decimal
no_sign n cs h =
    let digits = subst (All (λ c. b'0' ≤ c)) h (digits_only n n (omega arith)) in
    omega (arith, digits.0)

format_int_injective : (a b : ℤ) → format_int a ≡ format_int b → a ≡ b
unfolding format_int rest_of
format_int_injective (pos m) (pos n) h = ap pos (decimal_injective m n h)
format_int_injective (negsuc m) (negsuc n) h =
    ap negsuc (omega (arith, decimal_injective (suc m) (suc n) (ap rest_of h)))
format_int_injective (pos m) (negsuc n) h = absurd (no_sign m _ h)
format_int_injective (negsuc m) (pos n) h = absurd (no_sign n _ (sym h))

split_slash :
    (a b x y : List ℕ)
    → has_slash a ≡ false
    → has_slash b ≡ false
    → a ++ slash ∷ x ≡ b ++ slash ∷ y
    → (a ≡ b) × (x ≡ y)
unfolding has_slash
split_slash [] [] x y p q h = ground arith
split_slash [] (d ∷ b) x y p q h = ground arith
split_slash (c ∷ a) [] x y p q h = ground arith
split_slash (c ∷ a) (d ∷ b) x y p q h = ground (arith, split_slash a b x y)

codes_injective : (s t : String) → codes s ≡ codes t → s ≡ t
codes_injective String.[] String.[] h = refl
codes_injective String.[] (String.◌∷◌ d t) h = cc
codes_injective (String.◌∷◌ c s) String.[] h = cc
codes_injective (String.◌∷◌ c s) (String.◌∷◌ d t) h =
    cc (Char-path c d (cc), codes_injective s t (cc))

-- Two deposits whose chain ids and hashes hold no slash have the same key only if they are the same.
pub id_string_injective :
    (a b : DepositIdentifier)
    → has_slash (codes a.chain_id) ≡ false
    → has_slash (codes a.tx_hash) ≡ false
    → has_slash (codes b.chain_id) ≡ false
    → has_slash (codes b.tx_hash) ≡ false
    → id_string a ≡ id_string b
    → a ≡ b
unfolding id_string
id_string_injective a b p q r s h =
    let (chain, rest) = split_slash (codes a.chain_id) (codes b.chain_id) _ _ p r h in
    let (hash, nonce) = split_slash (codes a.tx_hash) (codes b.tx_hash) _ _ q s rest in
    cc (
      codes_injective a.chain_id b.chain_id chain,
      codes_injective a.tx_hash b.tx_hash hash,
      format_int_injective a.tx_nonce b.tx_nonce nonce,
    )
