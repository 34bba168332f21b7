-- ===== src/Outbox/Ensures.antt =====
-- Steps that send nothing, and what their values are.
use relayer_svc.Base.{ℕ, ◌≡◌, refl, ◌∙◌, Option, none, some}
use relayer_svc.Types.{Error, Result, ok, err, case_result}
use relayer_svc.Retry.{Retrier}
use relayer_svc.Attempt.{Attempt, pure, ◌>>=◌, or_raise}
use relayer_svc.Broadcaster.Batches.{Runs-keeps}
use relayer_svc.Outbox.{Outbox, ask, ask_again, with_retry}

module _ {C : Type 0} where
  -- A step that asks the nodes and sends nothing.
  abbrev pub SendsNothing : {A : Type 0} → Attempt (Outbox C) A → Type 0
  SendsNothing m = (w : Outbox C) → (m w).1.sent ≡ w.sent

  pub sent-with_retry :
      {A : Type 0} (r : Retrier (Option A × Outbox C)) (f : ℕ → Option A)
      → SendsNothing (with_retry r f)
  unfolding with_retry ask_again
  sent-with_retry {A} r f w =
      Runs-keeps {S = Option A × Outbox C} (λ x. x.1.sent) (λ x. refl)
        (r.runs (ask_again f) (none, w))

  pub sent-or_raise : {A : Type 0} (e : Error) (o : Option A) → SendsNothing (or_raise e o)
  unfolding or_raise
  sent-or_raise e o w = refl

  pub sent-ask : {A : Type 0} (f : ℕ → Option A) → SendsNothing (ask f)
  unfolding ask
  sent-ask f w = refl

  -- A step that sends nothing, and whose value, if it returns one, is as `Q` says.
  abbrev pub Ensures : {A : Type 0} → (A → Type 0) → Attempt (Outbox C) A → Type 0
  Ensures Q m = (w : Outbox C) → ((m w).1.sent ≡ w.sent) × case_result (m w).0 Q (λ e. Unit)

  pub Ensures-bind :
      {A B : Type 0} (P : A → Type 0) (Q : B → Type 0) (m : Attempt (Outbox C) A)
      (f : A → Attempt (Outbox C) B)
      → Ensures P m
      → ((a : A) → P a → Ensures Q (f a))
      → Ensures Q (m >>= f)
  unfolding ◌>>=◌
  Ensures-bind {A = A} {B = B} P Q m f h k w = go (m w) (h w)
    where
      go :
          (r : Result A × Outbox C)
          → (r.1.sent ≡ w.sent) × case_result r.0 P (λ e. Unit)
          → ((case_result r.0 (λ a. f a r.1) (λ e. (err e, r.1))).1.sent ≡ w.sent)
            × case_result (case_result r.0 (λ a. f a r.1) (λ e. (err e, r.1))).0 Q (λ e. Unit)
      go (ok a, w') (s, p) = ((k a p w').0 ∙ s, (k a p w').1)
      go (err e, w') (s, p) = (s, tt)

  pub Ensures-or_raise :
      {A : Type 0} (e : Error) (o : Option A) → Ensures (λ a. o ≡ some a) (or_raise e o)
  unfolding or_raise
  Ensures-or_raise e none w = (refl, tt)
  Ensures-or_raise e (some a) w = (refl, refl)

  pub Ensures-nothing :
      {A : Type 0} (m : Attempt (Outbox C) A) → SendsNothing m → Ensures (λ a. Unit) m
  Ensures-nothing {A = A} m h w = (h w, go (m w).0)
    where
      go : (r : Result A) → case_result r (λ a. Unit {0}) (λ e. Unit {0})
      go (ok a) = tt
      go (err e) = tt

  pub Ensures-pure : {A : Type 0} (Q : A → Type 0) (a : A) → Q a → Ensures Q (pure a)
  unfolding pure
  Ensures-pure Q a q w = (refl, q)

  -- A value that may be raised, of which nothing is said.
  pub Ensures-raised : {A : Type 0} (e : Error) (o : Option A) → Ensures (λ a. Unit) (or_raise e o)
  Ensures-raised e o = Ensures-nothing (or_raise e o) (sent-or_raise e o)

  pub Ensures-weaken :
      {A : Type 0} (P Q : A → Type 0) (m : Attempt (Outbox C) A)
      → ((a : A) → P a → Q a)
      → Ensures P m
      → Ensures Q m
  Ensures-weaken {A = A} P Q m f h w = ((h w).0, go (m w).0 (h w).1)
    where
      go : (r : Result A) → case_result r P (λ e. Unit {0}) → case_result r Q (λ e. Unit {0})
      go (ok a) p = f a p
      go (err e) p = tt
