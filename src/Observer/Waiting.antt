-- ===== src/Observer/Waiting.antt =====
-- How long the observer waits for the block distance.
use relayer_svc.Base.{
  ℕ, zero, suc, inl, inr, ◌+◌, ◌-◌, ◌%◌, ◌^◌, ◌<◌, ◌≤◌, ◌≡◌, refl, Bool, true, false, leb, arith,
}
use relayer_svc.Types.{Result, ok, case_result, Result-cases}
use relayer_svc.Env.{Environment, World}
use relayer_svc.Observer.{Feed, get_current_height, wait_for_block_distance}

-- The wait for a height below 2^63 looks at a current height below 2^63, with a block distance of at
-- most 2^63: it ends if the current height is the distance ahead, goes on if it is less far ahead, and
-- ends too if it is behind, where the gap wraps around.
pub wait_for_block_distance-once :
    (env : Environment) (feed : Feed) (start h : ℕ) (w w' : World)
    → get_current_height env feed w ≡ (ok h, w')
    → start < 2 ^ 63
    → h < 2 ^ 63
    → feed.block_distance ≤ 2 ^ 63
    → (start + feed.block_distance ≤ h → wait_for_block_distance 1 env feed start w ≡ (true, w'))
      × (h < start → wait_for_block_distance 1 env feed start w ≡ (true, w'))
      × (start ≤ h
          → h < start + feed.block_distance
          → wait_for_block_distance 1 env feed start w ≡ (false, w'))
unfolding wait_for_block_distance
wait_for_block_distance-once env feed start h w w' e a b c =
    (λ far. ground (arith, e), λ behind. ground (arith, e), λ near far. ground (arith, e))

-- The world after so many looks at the current height.
abbrev pub world_after : Environment → Feed → ℕ → World → World
world_after env feed zero w = w
world_after env feed (suc n) w = world_after env feed n (get_current_height env feed w).1

-- The answer ends the wait: it is an error, or far enough ahead.
abbrev pub ends_wait : Feed → ℕ → Result ℕ → Bool
ends_wait feed start r =
    case_result r (λ h. leb feed.block_distance ((h + (2 ^ 64 - start)) % 2 ^ 64)) λ e. true

-- Rounds that see no answer which ends the wait leave it waiting.
wait_for_block_distance-waits :
    (env : Environment) (feed : Feed) (start fuel : ℕ) (w : World)
    → ((k : ℕ)
        → k < fuel
        → ends_wait feed start (get_current_height env feed (world_after env feed k w)).0 ≡ false)
    → (wait_for_block_distance fuel env feed start w).0 ≡ false
unfolding wait_for_block_distance
wait_for_block_distance-waits env feed start zero w before = refl
wait_for_block_distance-waits env feed start (suc fuel) w before =
    elim (Result-cases (get_current_height env feed w).0) [
      | inl (x, r) ↦ ground (arith, r, before 0 (omega arith))
      | inr (h, r) ↦ ground (
        arith,
        r,
        before 0 (omega arith),
        wait_for_block_distance-waits env feed start fuel (get_current_height env feed w).1
            (λ k l. before (suc k) (omega (arith, l))),
      )
    ]

wait_for_block_distance-ends :
    (env : Environment) (feed : Feed) (start n fuel : ℕ) (w : World)
    → n < fuel
    → ((k : ℕ)
        → k < n
        → ends_wait feed start (get_current_height env feed (world_after env feed k w)).0 ≡ false)
    → ends_wait feed start (get_current_height env feed (world_after env feed n w)).0 ≡ true
    → wait_for_block_distance fuel env feed start w ≡ (true, world_after env feed (suc n) w)
unfolding wait_for_block_distance
wait_for_block_distance-ends env feed start n zero w l before e = absurd (omega (arith, l))
wait_for_block_distance-ends env feed start zero (suc fuel) w l before e =
    elim (Result-cases (get_current_height env feed w).0) [
      | inl (x, r) ↦ ground (arith, r, e)
      | inr (h, r) ↦ ground (arith, r, e)
    ]
wait_for_block_distance-ends env feed start (suc n) (suc fuel) w l before e =
    elim (Result-cases (get_current_height env feed w).0) [
      | inl (x, r) ↦ ground (arith, r, before 0 (omega arith))
      | inr (h, r) ↦ ground (
        arith,
        r,
        before 0 (omega arith),
        wait_for_block_distance-ends env feed start n fuel (get_current_height env feed w).1
            (omega (arith, l)) (λ k m. before (suc k) (omega (arith, m))) e,
      )
    ]

-- The wait ends at the first look whose answer ends it: if the answer after n looks is an error or a
-- height far enough ahead, and no answer before it is, then every amount of more than n rounds of fuel
-- ends the wait in the world which that look leaves, and n rounds or less leave it waiting.
pub wait_for_block_distance-first :
    (env : Environment) (feed : Feed) (start n : ℕ) (w : World)
    → ((k : ℕ)
        → k < n
        → ends_wait feed start (get_current_height env feed (world_after env feed k w)).0 ≡ false)
    → ends_wait feed start (get_current_height env feed (world_after env feed n w)).0 ≡ true
    → ((fuel : ℕ)
        → n < fuel
        → wait_for_block_distance fuel env feed start w ≡ (true, world_after env feed (suc n) w))
      × ((fuel : ℕ) → fuel ≤ n → (wait_for_block_distance fuel env feed start w).0 ≡ false)
wait_for_block_distance-first env feed start n w before e = (
  λ fuel l. wait_for_block_distance-ends env feed start n fuel w l before e,
  λ fuel l.
      wait_for_block_distance-waits env feed start fuel w λ k m. before k (omega (arith, l, m)),
)
