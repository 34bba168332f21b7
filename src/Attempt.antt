-- ===== src/Attempt.antt =====
-- Calls that change state and may return an error, with Go's `if err != nil { return … }` after each.
use relayer_svc.Base.{Option, State, case_option}
use relayer_svc.Types.{Error, Result, ok, err, case_result}

-- The state comes back beside an error too.
abbrev pub Attempt {ℓ} : Type ℓ → Type ℓ → Type ℓ
Attempt S A = State S (Result A)

unfoldable pub pure {ℓ} : {S A : Type ℓ} → A → Attempt S A
pure a s = (ok a, s)

infixl 5 ◌>>=◌ ◌>>◌
-- Opening this opens `pure` too.
unfoldable pub ◌>>=◌ {ℓ} : {S A B : Type ℓ} → Attempt S A → (A → Attempt S B) → Attempt S B
unfolding pure
◌>>=◌ m f s = let (r, s') = m s in case_result r (λ a. f a s') λ e. (err e, s')

abbrev pub ◌>>◌ {ℓ} : {S A B : Type ℓ} → Attempt S A → Attempt S B → Attempt S B
m >> k = m >>= λ _. k

-- A pure step that may fail.
unfoldable pub or_raise {ℓ} : {S A : Type ℓ} → Error → Option A → Attempt S A
or_raise e o s = (case_option o (err e) ok, s)
