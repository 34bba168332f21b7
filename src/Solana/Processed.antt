-- ===== src/Solana/Processed.antt =====
-- Withdrawals on Solana and the accounts that they are recorded in.
use relayer_svc.Base.{
  ℕ, pos, ◌^◌, ◌<◌, ◌≡◌, inl, inr, ap, sym, ◌∙◌, arith, String, some, List, [], ◌∷◌, ◌++◌,
  Option-cases, to_uint64,
}
use relayer_svc.Db.{Deposit}
use relayer_svc.Db.Text.{codes}
use relayer_svc.Observer.Numbers.{parse_uint, parse_below, read_digits}
use relayer_svc.Chain.{Bytes, bytes_of, set_string, set_string_codes, read_number}
use relayer_svc.Solana.{Client}
use relayer_svc.Solana.Data.{get_sign_hash, get_withdrawal_hash, get_uid, big_uint64, put_uint64}

parse_below-some :
    (bound : ℕ) (s : List ℕ) (n : ℕ)
    → parse_below bound s ≡ some n
    → (read_number s ≡ some n) × (n < bound)
unfolding parse_below read_number
parse_below-some bound [] n h = absurd (ground (arith, h))
parse_below-some bound (c ∷ cs) n h = elim (Option-cases (read_digits 0 (c ∷ cs))) [
  | inl e ↦ absurd (ground (arith, e, h))
  | inr (m, e) ↦ (ground (arith, e, h), ground (arith, e, h))
]

set_string_codes-some :
    (s : List ℕ) (n : ℕ) → read_number s ≡ some n → set_string_codes s ≡ some (pos n)
unfolding set_string_codes read_number read_digits
set_string_codes-some [] n h = absurd (ground (arith, h))
set_string_codes-some (c ∷ cs) n h = ground (arith, h)

-- A number that `ParseUint` reads is the same for `SetString`.
parse_uint-set_string :
    (s : String) (n : ℕ) → parse_uint 64 s ≡ some n → (set_string s ≡ some (pos n)) × (n < 2 ^ 64)
unfolding parse_uint set_string
parse_uint-set_string s n h =
    let (r, l) = parse_below-some (2 ^ 64) (codes s) n h in (set_string_codes-some (codes s) n r, l)

wrap_small : (n : ℕ) → n < 2 ^ 64 → big_uint64 (pos n) ≡ n
unfolding big_uint64
wrap_small n l = omega arith

get_uid-to_uint64 :
    (c : Client) (d : Deposit) (n : ℕ)
    → d.tx_nonce ≡ pos n
    → n < 2 ^ 64
    → get_uid c.toolkit d.tx_hash d.tx_nonce
      ≡ c.toolkit.sha256 (bytes_of d.tx_hash ++ put_uint64 (to_uint64 d.tx_nonce))
unfolding get_uid to_uint64
get_uid-to_uint64 c d n e l =
    ap (λ x. c.toolkit.sha256 (bytes_of d.tx_hash ++ put_uint64 x))
      (ap big_uint64 e ∙ wrap_small n l ∙ sym (ap to_uint64 e))

pub get_withdrawal_hash-get_sign_hash :
    (c : Client) (d : Deposit) (hash : Bytes) (n : ℕ)
    → d.tx_nonce ≡ pos n
    → n < 2 ^ 64
    → get_sign_hash c d ≡ some hash
    → get_withdrawal_hash c d ≡ some hash
unfolding get_sign_hash get_withdrawal_hash
get_withdrawal_hash-get_sign_hash c d hash n e l h =
    elim (Option-cases (parse_uint 64 d.withdrawal_amount)) [
      | inl q ↦ absurd (ground (arith, q, h))
      | inr (amount, q) ↦
          let (r, k) = parse_uint-set_string d.withdrawal_amount amount q in
          rw (r, wrap_small amount k, get_uid-to_uint64 c d n e l) (ground (arith, q, h))
    ]
