-- ===== src/Observer/Numbers.antt =====
-- `strconv.ParseUint`, `ParseInt` and `ParseBool` of Go, in base 10, as the observer calls them.
pub mod RoundTrip
use relayer_svc.Base.{
  ℕ, ℤ, ◌+◌, ◌-◌, ◌*◌, ◌^◌, ◌≡◌, pos, negsuc, sub_ℕ, String, str_eq, Bool, true, false, ◌||◌, ◌&&◌,
  Option, none, some, List, [], ◌∷◌, ltb, leb, ◌==◌, if◌then◌else◌, case_option,
}
use relayer_svc.Db.Text.{codes}

-- The digits of a text, read after the number `n`.
unfoldable pub read_digits : ℕ → List ℕ → Option ℕ
read_digits n [] = some n
read_digits n (c ∷ cs) =
    let rest = read_digits (n * 10 + (c - b'0')) cs in
    if leb b'0' c && leb c b'9' then rest else none

-- A number below `bound`; no digits are an error.
unfoldable pub parse_below : ℕ → List ℕ → Option ℕ
parse_below bound [] = none
parse_below bound (c ∷ cs) =
    case_option (read_digits 0 (c ∷ cs)) none λ n. if ltb n bound then some n else none

-- `ParseUint(s, 10, bits)`
unfoldable pub parse_uint : ℕ → String → Option ℕ
unfolding parse_below read_digits
parse_uint bits s = parse_below (2 ^ bits) (codes s)

negative : Option ℕ → Option ℤ
negative none = none
negative (some n) = some (sub_ℕ 0 n)

positive : Option ℕ → Option ℤ
positive none = none
positive (some n) = some (pos n)

unfoldable pub parse_int_codes : List ℕ → Option ℤ
unfolding parse_below negative positive
parse_int_codes [] = none
parse_int_codes (c ∷ cs) =
    if c == b'-'
    then negative (parse_below (2 ^ 63 + 1) cs)
    else if c == b'+'
    then positive (parse_below (2 ^ 63) cs)
    else positive (parse_below (2 ^ 63) (c ∷ cs))

-- `ParseInt(s, 10, 64)`
unfoldable pub parse_int : String → Option ℤ
unfolding parse_int_codes
parse_int s = parse_int_codes (codes s)

-- `ParseBool`
unfoldable pub parse_bool : String → Option Bool
parse_bool s =
    if str_eq s "1"
      || str_eq s "t"
      || str_eq s "T"
      || str_eq s "TRUE"
      || str_eq s "true"
      || str_eq s "True"
    then some true
    else if str_eq s "0"
        || str_eq s "f"
        || str_eq s "F"
        || str_eq s "FALSE"
        || str_eq s "false"
        || str_eq s "False"
    then some false
    else none
