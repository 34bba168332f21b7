-- ===== src/Chain/Operators.antt =====
-- `ConfigureChildClients` of the three clients, internal/core/chain/{evm,solana,ton}/client.go, and the
-- test on the number of workers of `FromChain`: the operators' keys are dealt to the child clients.
use relayer_svc.Base.{
  ℕ, zero, suc, ◌+◌, ◌%◌, sym, ◌∙◌, subst, ◌⊎◌, inl, inr, false, Bool-cases, ◌<◌, ◌≤◌, ◌≡◌, refl,
  Bool, List, [], ◌∷◌, ◌++◌, length, arith, leb, ltb_ℤ, true, ℤ, pos, negsuc, not, Option, none,
  some, ap,
}

eq_or_less : (i j : ℕ) → i ≤ j → (j ≡ i) ⊎ (i + 1 ≤ j)
eq_or_less i j h = elim (Bool-cases (leb (i + 1) j)) [
  | inl e ↦ inr (ground arith)
  | inr e ↦ inl (ground arith)
]

small : (i n : ℕ) → i < n → i % n ≡ i
small i n h = grind arith

module _ {K : Type 0} where
  -- The children before a key was added.
  unfoldable pub no_signers : ℕ → List (List K)
  no_signers zero = []
  no_signers (suc n) = [] ∷ no_signers n

  -- `childs[idx].AddSigner(key)`
  unfoldable pub add_signer : ℕ → K → List (List K) → List (List K)
  add_signer idx key [] = []
  add_signer zero key (c ∷ cs) = (c ++ key ∷ []) ∷ cs
  add_signer (suc idx) key (c ∷ cs) = c ∷ add_signer idx key cs

  -- The loop over the keys, from number i.
  unfoldable pub deal : ℕ → ℕ → List K → List (List K) → List (List K)
  deal workers i [] cs = cs
  deal workers i (key ∷ keys) cs = deal workers (i + 1) keys (add_signer (i % workers) key cs)

  -- A negative number of workers panics in `make`, and with no workers the first key panics in `i % 0`.
  unfoldable pub configure_child_clients : ℤ → List K → Option (List (List K))
  unfolding no_signers add_signer deal
  configure_child_clients (negsuc n) keys = none
  configure_child_clients (pos zero) [] = some []
  configure_child_clients (pos zero) (key ∷ keys) = none
  configure_child_clients (pos (suc n)) keys = some (deal (suc n) 0 keys (no_signers (suc n)))

  -- `FromChain` does not panic about the number of workers.
  unfoldable pub enough_keys : ℤ → List K → Bool
  enough_keys workers keys = not (ltb_ℤ (pos (length keys)) workers)

  -- Child number j has a signer.
  unfoldable pub has_signer : ℕ → List (List K) → Bool
  has_signer j [] = false
  has_signer zero ([] ∷ cs) = false
  has_signer zero ((k ∷ ks) ∷ cs) = true
  has_signer (suc j) (c ∷ cs) = has_signer j cs

length-no_signers : (K : Type 0) (n : ℕ) → length (no_signers {K = K} n) ≡ n
unfolding no_signers
length-no_signers K zero = refl
length-no_signers K (suc n) = ground (arith, length-no_signers K n)

module _ {K : Type 0} where
  length-add_signer :
      (i : ℕ) (key : K) (cs : List (List K)) → length (add_signer i key cs) ≡ length cs
  unfolding add_signer
  length-add_signer i key [] = refl
  length-add_signer zero key (c ∷ cs) = refl
  length-add_signer (suc i) key (c ∷ cs) = ground (arith, length-add_signer i key cs)

  length-deal :
      (n i : ℕ) (keys : List K) (cs : List (List K)) → length (deal n i keys cs) ≡ length cs
  unfolding deal
  length-deal n i [] cs = refl
  length-deal n i (key ∷ keys) cs =
      length-deal n (i + 1) keys (add_signer (i % n) key cs) ∙ length-add_signer (i % n) key cs

  has_signer-added :
      (j : ℕ) (key : K) (cs : List (List K))
      → j < length cs
      → has_signer j (add_signer j key cs) ≡ true
  unfolding has_signer add_signer
  has_signer-added j key [] h = absurd (omega arith)
  has_signer-added zero key ([] ∷ cs) h = refl
  has_signer-added zero key ((k ∷ ks) ∷ cs) h = refl
  has_signer-added (suc j) key (c ∷ cs) h = has_signer-added j key cs (omega arith)

  has_signer-add_signer :
      (j i : ℕ) (key : K) (cs : List (List K))
      → has_signer j cs ≡ true
      → has_signer j (add_signer i key cs) ≡ true
  unfolding has_signer add_signer
  has_signer-add_signer j i key [] h = h
  has_signer-add_signer zero zero key ([] ∷ cs) h = refl
  has_signer-add_signer zero zero key ((k ∷ ks) ∷ cs) h = refl
  has_signer-add_signer zero (suc i) key ([] ∷ cs) h = h
  has_signer-add_signer zero (suc i) key ((k ∷ ks) ∷ cs) h = h
  has_signer-add_signer (suc j) zero key (c ∷ cs) h = h
  has_signer-add_signer (suc j) (suc i) key (c ∷ cs) h = has_signer-add_signer j i key cs h

  has_signer-kept :
      (j n i : ℕ) (keys : List K) (cs : List (List K))
      → has_signer j cs ≡ true
      → has_signer j (deal n i keys cs) ≡ true
  unfolding deal
  has_signer-kept j n i [] cs h = h
  has_signer-kept j n i (key ∷ keys) cs h =
      has_signer-kept j n (i + 1) keys (add_signer (i % n) key cs)
        (has_signer-add_signer j (i % n) key cs h)

  has_signer-deal :
      (j n i : ℕ) (keys : List K) (cs : List (List K))
      → i ≤ j
      → j < i + length keys
      → j < n
      → length cs ≡ n
      → has_signer j (deal n i keys cs) ≡ true
  unfolding deal
  has_signer-deal j n i [] cs h k l e = absurd (omega arith)
  has_signer-deal j n i (key ∷ keys) cs h k l e = elim (eq_or_less i j h) [
    | inl q ↦ has_signer-kept j n (i + 1) keys (add_signer (i % n) key cs) (
        subst (λ x. has_signer j (add_signer x key cs) ≡ true) (q ∙ sym (small i n (omega arith)))
          (has_signer-added j key cs (omega arith)))
    | inr q ↦
        has_signer-deal j n (i + 1) keys (add_signer (i % n) key cs) q (omega arith) l
          (length-add_signer (i % n) key cs ∙ e)
  ]

  -- There are as many child clients as workers, and each has a signer.
  abbrev pub IsDealt : ℤ → List K → Option (List (List K)) → Type 0
  IsDealt workers keys none = ltb_ℤ workers (pos 1) ≡ true
  IsDealt workers keys (some cs) =
      (workers ≡ pos (length cs)) × ((j : ℕ) → j < length cs → has_signer j cs ≡ true)

  -- With at least as many keys as workers, dealing the keys either panics, for a number of workers that is
  -- not positive, or makes as many child clients as there are workers, each of which has a signer.
  pub configure_child_clients-IsDealt :
      (workers : ℤ) (keys : List K)
      → enough_keys workers keys ≡ true
      → IsDealt workers keys (configure_child_clients workers keys)
  unfolding configure_child_clients enough_keys
  configure_child_clients-IsDealt (negsuc n) [] h = ground arith
  configure_child_clients-IsDealt (negsuc n) (key ∷ keys) h = ground arith
  configure_child_clients-IsDealt (pos zero) [] h = (refl, λ j l. absurd (omega arith))
  configure_child_clients-IsDealt (pos zero) (key ∷ keys) h = ground arith
  configure_child_clients-IsDealt (pos (suc n)) keys h =
      let e : length (deal (suc n) 0 keys (no_signers (suc n))) ≡ suc n =
        length-deal (suc n) 0 keys (no_signers (suc n)) ∙ length-no_signers K (suc n) in
      (
        ap pos (sym e),
        λ j l.
            has_signer-deal j (suc n) 0 keys (no_signers (suc n)) (omega arith) (ground arith)
              (omega (arith, e)) (length-no_signers K (suc n)),
      )
