-- ===== src/Observer/Loop/Heights.antt =====
-- Which heights the loop asks for.
use relayer_svc.Base.{
  ℕ, zero, suc, ◌+◌, ◌%◌, ◌^◌, ◌<◌, ◌≤◌, ◌≡◌, refl, subst, ◌⊎◌, inl, inr, List, [], ◌∷◌, All,
  All-map, arith,
}
use relayer_svc.Env.{Environment}
use relayer_svc.Broadcaster.{Config}
use relayer_svc.Observer.{Feed}
use relayer_svc.Observer.Loop.{
  Observing, Round, waits, panics, over, advance, after_block, visit, store_and_visit, tick_at,
  tick, or_end, ticks,
}

-- Each element is above all that follow it.
abbrev pub IsDescending : List ℕ → Type 0
IsDescending [] = Unit
IsDescending (h ∷ hs) = All (λ k. k < h) hs × IsDescending hs

-- The heights that were asked for are below the loop's height, and each was asked for once, in order.
abbrev pub IsForward : Observing → Type 0
IsForward o = All (λ k. k < o.start_height) o.fetched × IsDescending o.fetched

-- What a round does to the loop's height and to the heights that were asked for.
abbrev Moves : Observing → Observing → Type 0
Moves o o' =
    ((o'.start_height ≡ o.start_height) × (o'.fetched ≡ o.fetched))
    ⊎ ((o'.start_height ≡ (o.start_height + 1) % 2 ^ 64)
        × ((o'.fetched ≡ o.fetched) ⊎ (o'.fetched ≡ o.start_height ∷ o.fetched)))

tick-Moves :
    (fuel : ℕ) (env : Environment) (feed : Feed) (config : Config) (o o' : Observing)
    → tick fuel env feed config o ≡ over o'
    → Moves o o'
unfolding tick tick_at store_and_visit visit after_block advance
tick-Moves fuel env feed config o o' h = ground arith

IsForward-Moves :
    (o o' : Observing)
    → o.start_height + 1 < 2 ^ 64
    → Moves o o'
    → IsForward o
    → IsForward o' × (o'.start_height ≤ o.start_height + 1)
IsForward-Moves o o' small (inl (s, f)) h = (rw (s, f) h, omega (arith, s))
IsForward-Moves o o' small (inr (s, inl f)) h = (
  (rw f (All-map _ _ (λ k below. omega (arith, s, below)) o.fetched h.0), rw f h.1),
  omega (arith, s),
)
IsForward-Moves o o' small (inr (s, inr f)) h = (
  (rw f (omega (arith, s), All-map _ _ (λ k below. omega (arith, s, below)) o.fetched h.0), rw f h),
  omega (arith, s),
)

Round-cases : (r : Round) → (r ≡ waits) ⊎ (r ≡ panics) ⊎ ((o : Observing) × (r ≡ over o))
Round-cases waits = inl refl
Round-cases panics = inr (inl refl)
Round-cases (over o) = inr (inr (o, refl))

-- As long as the height cannot wrap, any number of rounds asks for the events of each height at most
-- once, in increasing order and below the height that is next, which grows by one a round at most.
pub ticks-IsForward :
    (fuel n : ℕ) (env : Environment) (feed : Feed) (config : Config) (o o' : Observing)
    → o.start_height + n < 2 ^ 64
    → IsForward o
    → ticks fuel n env feed config o ≡ over o'
    → IsForward o' × (o'.start_height ≤ o.start_height + n)
unfolding ticks or_end
ticks-IsForward fuel zero env feed config o o' small h e =
    subst (λ (p : Observing). IsForward p × (p.start_height ≤ o.start_height + 0)) {x = o} {y = o'}
      (cc e) (h, omega arith)
ticks-IsForward fuel (suc n) env feed config o o' small h e =
    elim (Round-cases (tick fuel env feed config o)) [
      | inl r ↦ absurd (ground (arith, r))
      | inr (inl r) ↦ absurd (ground (arith, r))
      | inr (inr (p, r)) ↦
          let (forward, close) =
            IsForward-Moves o p (omega arith) (tick-Moves fuel env feed config o p r) h in
          let (forward', close') =
            ticks-IsForward fuel n env feed config p o' (omega (arith, close)) forward
              (ground (arith, r)) in
          (forward', omega (arith, close, close'))
    ]
