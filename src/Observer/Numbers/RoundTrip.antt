-- ===== src/Observer/Numbers/RoundTrip.antt =====
-- Reading the numbers that `%d` prints.
use relayer_svc.Base.{
  ℕ, zero, suc, ℤ, ◌+◌, ◌-◌, ◌*◌, ◌/◌, ◌%◌, ◌^◌, ◌≤◌, ◌<◌, ◌≡◌, inl, inr, Bool-cases, pos, negsuc,
  some, List, [], ◌∷◌, ◌++◌, ltb, arith, IsInt64,
}
use relayer_svc.Db.Text.{decimal, decimal_fuel, format_int}
use relayer_svc.Observer.Numbers.{read_digits, parse_below, parse_int_codes}

read_digits-snoc :
    (n c m : ℕ) (cs : List ℕ)
    → b'0' ≤ c
    → c ≤ b'9'
    → read_digits n cs ≡ some m
    → read_digits n (cs ++ c ∷ []) ≡ some (m * 10 + (c - b'0'))
unfolding read_digits
read_digits-snoc n c m [] low high e = ground (arith, e)
read_digits-snoc n c m (d ∷ cs) low high e =
    ground (arith, e, read_digits-snoc (n * 10 + (d - b'0')) c m cs low high)

read_digits-decimal_fuel : (fuel n : ℕ) → n ≤ fuel → read_digits 0 (decimal_fuel fuel n) ≡ some n
unfolding decimal_fuel read_digits
read_digits-decimal_fuel zero n h = ground arith
read_digits-decimal_fuel (suc fuel) n h = ground (
  arith,
  read_digits-snoc 0 (b'0' + n % 10) (n / 10) (decimal_fuel fuel (n / 10)),
  read_digits-decimal_fuel fuel (n / 10),
)

-- The text is a number of digits, at least one.
abbrev IsNumeral : ℕ → List ℕ → Type 0
IsNumeral n [] = ⊥
IsNumeral n (c ∷ cs) = read_digits 0 (c ∷ cs) ≡ some n

IsNumeral-snoc :
    (n c : ℕ) (cs : List ℕ) → read_digits 0 (cs ++ c ∷ []) ≡ some n → IsNumeral n (cs ++ c ∷ [])
IsNumeral-snoc n c [] e = e
IsNumeral-snoc n c (d ∷ cs) e = e

decimal_fuel-IsNumeral : (fuel n : ℕ) → n ≤ fuel → IsNumeral n (decimal_fuel fuel n)
unfolding decimal_fuel read_digits
decimal_fuel-IsNumeral zero n h = ground arith
decimal_fuel-IsNumeral (suc fuel) n h = elim (Bool-cases (ltb n 10)) [
  | inl small ↦ rw small (ground (arith, small))
  | inr large ↦ rw large (
      IsNumeral-snoc n (b'0' + n % 10) (decimal_fuel fuel (n / 10))
        (ground (arith, large, read_digits-decimal_fuel (suc fuel) n h)))
]

parse_below-numeral :
    (bound n : ℕ) (cs : List ℕ) → IsNumeral n cs → n < bound → parse_below bound cs ≡ some n
unfolding parse_below
parse_below-numeral bound n [] h k = absurd h
parse_below-numeral bound n (c ∷ cs) h k = ground (arith, h)

parse_int_codes-numeral :
    (n : ℕ) (cs : List ℕ) → IsNumeral n cs → n < 2 ^ 63 → parse_int_codes cs ≡ some (pos n)
unfolding parse_int_codes read_digits
parse_int_codes-numeral n [] h k = absurd h
parse_int_codes-numeral n (c ∷ cs) h k =
    ground (arith, h, parse_below-numeral (2 ^ 63) n (c ∷ cs) h)

-- An int64 that is printed with `%d` is read back by `ParseInt`.
pub parse_int_codes-format_int : (a : ℤ) → IsInt64 a → parse_int_codes (format_int a) ≡ some a
unfolding format_int decimal parse_int_codes
parse_int_codes-format_int (pos n) h =
    parse_int_codes-numeral n (decimal_fuel n n) (decimal_fuel-IsNumeral n n (omega arith)) h
parse_int_codes-format_int (negsuc n) h = ground (
  arith,
  parse_below-numeral (2 ^ 63 + 1) (suc n) (decimal_fuel (suc n) (suc n))
      (decimal_fuel-IsNumeral (suc n) (suc n) (omega arith)),
)
