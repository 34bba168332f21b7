-- ===== src/Base/Monad.antt =====
-- Code that changes state: a function from the state to its result and the new state.
abbrev pub State {ℓ} : Type ℓ → Type ℓ → Type ℓ
State S A = S → A × S

unfoldable pub pure {ℓ} : {S A : Type ℓ} → A → State S A
pure a s = (a, s)

infixl 5 ◌>>=◌ ◌>>◌
-- Opening this opens `pure` too.
unfoldable pub ◌>>=◌ {ℓ} : {S A B : Type ℓ} → State S A → (A → State S B) → State S B
unfolding pure
◌>>=◌ m f s = let (a, s') = m s in f a s'

abbrev pub ◌>>◌ {ℓ} : {S A B : Type ℓ} → State S A → State S B → State S B
m >> k = m >>= λ _. k
