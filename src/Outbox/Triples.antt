-- ===== src/Outbox/Triples.antt =====
-- Triples on what was sent: before a step, after it with a value, and after it with an error.
use relayer_svc.Base.{
  ◌≡◌, refl, subst, sym, Bool, true, false, if◌then◌else◌, Option, none, some, List,
}
use relayer_svc.Types.{Error, Result, ok, err, case_result}
use relayer_svc.Attempt.{Attempt, pure, ◌>>=◌, or_raise}
use relayer_svc.Outbox.{Outbox}
use relayer_svc.Outbox.Ensures.{SendsNothing, Ensures}

module _ {C : Type 0} where
  abbrev pub After :
      {A : Type 0} → (A → List C → Type 0) → (List C → Type 0) → Result A → List C → Type 0
  After Q E r s = case_result r (λ a. Q a s) λ e. E s

  abbrev pub Triple :
      {A : Type 0}
      → (List C → Type 0)
      → Attempt (Outbox C) A
      → (A → List C → Type 0)
      → (List C → Type 0)
      → Type 0
  Triple P m Q E = (w : Outbox C) → P w.sent → After Q E (m w).0 (m w).1.sent

  pub Triple-bind :
      {A B : Type 0} (P : List C → Type 0) (Q : A → List C → Type 0) (R : B → List C → Type 0)
      (E : List C → Type 0) (m : Attempt (Outbox C) A) (f : A → Attempt (Outbox C) B)
      → Triple P m Q E
      → ((a : A) → Triple (Q a) (f a) R E)
      → Triple P (m >>= f) R E
  unfolding ◌>>=◌
  Triple-bind {A = A} {B = B} P Q R E m f h k w p = go (m w) (h w p)
    where
      go :
          (r : Result A × Outbox C)
          → After Q E r.0 r.1.sent
          → After R E
              (case_result r.0 (λ a. f a r.1) (λ e. (err e, r.1))).0
              (case_result r.0 (λ a. f a r.1) (λ e. (err e, r.1))).1.sent
      go (ok a, w') q = k a w' q
      go (err e, w') q = q

  pub Triple-nothing :
      {A : Type 0} (P E : List C → Type 0) (m : Attempt (Outbox C) A)
      → SendsNothing m
      → ((s : List C) → P s → E s)
      → Triple P m (λ a. P) E
  Triple-nothing {A = A} P E m h k w p = go (m w).0 (subst P (sym (h w)) p)
    where
      go : (r : Result A) → P (m w).1.sent → After (λ a. P) E r (m w).1.sent
      go (ok a) q = q
      go (err e) q = k (m w).1.sent q

  pub Triple-pure :
      {A : Type 0} (P : List C → Type 0) (Q : A → List C → Type 0) (E : List C → Type 0) (a : A)
      → ((s : List C) → P s → Q a s)
      → Triple P (pure a) Q E
  unfolding pure
  Triple-pure P Q E a h w p = h w.sent p

  pub Triple-or_raise :
      {A : Type 0} (P E : List C → Type 0) (e : Error) (o : Option A)
      → ((s : List C) → P s → E s)
      → Triple P (or_raise e o) (λ a s. P s × (o ≡ some a)) E
  unfolding or_raise
  Triple-or_raise P E e none h w p = h w.sent p
  Triple-or_raise P E e (some a) h w p = (p, refl)

  pub Triple-Ensures :
      {A : Type 0} (P E : List C → Type 0) (Q : A → Type 0) (m : Attempt (Outbox C) A)
      → Ensures Q m
      → ((s : List C) → P s → E s)
      → Triple P m (λ a s. P s × Q a) E
  Triple-Ensures {A = A} P E Q m h k w p = go (m w).0 (subst P (sym (h w).0) p) (h w).1
    where
      go :
          (r : Result A)
          → P (m w).1.sent
          → case_result r Q (λ e. Unit {0})
          → After (λ a s. P s × Q a) E r (m w).1.sent
      go (ok a) p q = (p, q)
      go (err e) p q = k (m w).1.sent p

  pub Triple-known :
      {A : Type 0} (X : Type 0) (P : List C → Type 0) (m : Attempt (Outbox C) A)
      (Q : A → List C → Type 0) (E : List C → Type 0)
      → (X → Triple P m Q E)
      → Triple (λ s. P s × X) m Q E
  Triple-known X P m Q E h w (p, x) = h x w p

  pub Triple-if :
      {A : Type 0} (P : List C → Type 0) (Q : A → List C → Type 0) (E : List C → Type 0) (b : Bool)
      (x y : Attempt (Outbox C) A)
      → Triple P x Q E
      → Triple P y Q E
      → Triple P (if b then x else y) Q E
  Triple-if P Q E true x y h k = h
  Triple-if P Q E false x y h k = k
