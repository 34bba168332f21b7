-- ===== src/Observer/Loop.antt =====
-- `fetchEvents` of internal/core/observer/observer.go: a round for each tick of its timer.
pub mod Heights
use relayer_svc.Base.{
  ℕ, zero, suc, ◌+◌, ◌%◌, ◌^◌, Bool, true, false, not, Option, none, some, List, [], ◌∷◌, ltb, ◌==◌,
  to_int64, if◌then◌else◌, case_option,
}
use relayer_svc.Types.{Error, err_panic, Result, ok, err, case_result}
use relayer_svc.Env.{Environment, World}
use relayer_svc.Postgres.Blocks.{insert, update_latest_block_id}
use relayer_svc.Broadcaster.{Service, Config}
use relayer_svc.Observer.{
  Feed, BlockEvents, get_current_height, wait_for_block_distance, fetch_block_events, observe_block,
}

-- The service, the loop's variable `startHeight`, and the heights whose events were asked for.
pub record Observing : Type 0 where
  pub service : Service
  pub start_height : ℕ
  pub fetched : List ℕ

abbrev pub in_world : World → Observing → Observing
in_world w o = record o { service = record (o.service) { world = w } }

-- `startHeight++`
unfoldable pub advance : Observing → Observing
advance o = record o { start_height = (o.start_height + 1) % 2 ^ 64 }

-- A round still waits for the block distance, ends the process by a panic, or is over.
pub data Round : Type 0 where
  waits panics : Round
  over : Observing → Round

unfoldable pub after_block : Observing → Option Error × Service → Round
unfolding advance
after_block o (some err_panic, s) = panics
after_block o (_, s) = over (advance (record o { service = s }))

-- The events of the block are fetched and handed over.
unfoldable pub visit : Environment → Feed → Config → Observing → Round
unfolding after_block
visit env feed config o =
    let (events, w) = fetch_block_events feed (to_int64 o.start_height) o.service.world in
    let o' = record (in_world w o) { fetched = o.start_height ∷ o.fetched } in
    case_result events (λ es. after_block o' (observe_block env config es o'.service))
      λ e. over (advance o')

unfoldable pub store_and_visit : Environment → Feed → Config → Observing → Round
unfolding visit
store_and_visit env feed config o =
    let (e, w) = update_latest_block_id env (to_int64 o.start_height) o.service.world in
    case_option e (visit env feed config (in_world w o)) λ e'. over (advance (in_world w o))

-- What follows the current height; the wait has so many rounds.
unfoldable pub tick_at : ℕ → Environment → Feed → Config → ℕ → Observing → Round
unfolding store_and_visit
tick_at fuel env feed config current o =
    let (done, w) = wait_for_block_distance fuel env feed o.start_height o.service.world in
    if not done
    then waits
    else if ltb current o.start_height
    then over (in_world w o)
    else store_and_visit env feed config (in_world w o)

unfoldable pub tick : ℕ → Environment → Feed → Config → Observing → Round
unfolding tick_at
tick fuel env feed config o =
    let (current, w) = get_current_height env feed o.service.world in
    case_result current (λ h. tick_at fuel env feed config h (in_world w o))
      λ e. over (in_world w o)

unfoldable pub or_end : (Observing → Round) → Round → Round
or_end next waits = waits
or_end next panics = panics
or_end next (over o) = next o

-- So many rounds of the loop.
unfoldable pub ticks : ℕ → ℕ → Environment → Feed → Config → Observing → Round
unfolding tick or_end
ticks fuel zero env feed config o = over o
ticks fuel (suc n) env feed config o =
    or_end (ticks fuel n env feed config) (tick fuel env feed config o)

-- What `fetchEvents` does before the loop: it stores the height, and takes the current one for zero.
unfoldable pub begin_at : Environment → Feed → ℕ → World → Result ℕ × World
begin_at env feed start w =
    let (e, w') = insert env (to_int64 start) w in
    case_option e (if start == 0 then get_current_height env feed w' else (ok start, w'))
      λ e'. (err e', w')
