-- ===== src/Broadcaster/Waiting/Calls.antt =====
-- Calls of `BroadcastDeposit` and `CatchUp` that run side by side: the API and the observer call from
-- goroutines of their own, and nothing locks the cache between the question whether it has the deposit's key
-- and the call that stores it.
use relayer_svc.Base.{
  ℕ, ◌≡◌, refl, subst, ◌⊎◌, inl, inr, true, false, Option, none, some, List, ◌∷◌, All, Option-cases,
  arith, State, pure, ◌>>=◌, ◌>>◌, case_option,
}
use relayer_svc.Types.{Error}
use relayer_svc.Db.{Deposit}
use relayer_svc.Db.Text.{codes, id_string}
use relayer_svc.Db.Keys.{has_slash}
use relayer_svc.Env.{Environment}
use relayer_svc.Broadcaster.{
  Service, Config, Task, broadcast_task, catch_up_task, on_world, cached, load, store, now, spawn,
  check_existence, check_uncached, admit, enqueue, prepared, broadcast_deposit,
}
use relayer_svc.Broadcaster.CatchUp.{catch_up, resume_uncached}
use relayer_svc.Broadcaster.Workers.{take_task}
use relayer_svc.Broadcaster.Admission.{task_key, Effect}
use relayer_svc.Broadcaster.Waiting.{cached_keyed}
use relayer_svc.Broadcaster.Waiting.Effects.{catch_up-Effect}

-- A call in flight: the cache did not have the key of the deposit that is to be queued; or
-- `checkExistence` let a deposit pass too.
pub data Call : Type 0 where
  looked_up : Task → Call
  checked : Deposit → Call

abbrev pub call_key : Call → List ℕ
call_key (looked_up t) = task_key t
call_key (checked d) = id_string d.identifier

-- What a call does next, and what is left of it.
unfoldable pub proceed : Environment → Config → Call → State Service (Option Call)
proceed env config (looked_up (broadcast_task d)) = do
  e ← check_uncached env config d
  pure (case_option e (some (checked d)) λ x. none)
proceed env config (looked_up (catch_up_task d)) = do resume_uncached env config d; pure none
proceed env config (checked d) = do admit env config d; pure none

-- The broadcaster with its calls in flight.
pub record Busy : Type 0 where
  pub service : Service
  pub calls : List Call

-- Any call in flight goes on.
unfoldable pub advance : Environment → Config → ℕ → Busy → Busy
unfolding take_task
advance env config i b = case_option (take_task i b.calls) b λ (q : Call × List Call).
    let (next, s) = proceed env config q.0 b.service in
    record { service = s; calls = case_option next q.1 λ c. c ∷ q.1 }

-- One call after the other: `BroadcastDeposit` is the question to the cache and then the two parts.
proceed-broadcast_deposit :
    (env : Environment) (config : Config) (d : Deposit) (s : Service)
    → cached (id_string d.identifier) s.cache ≡ false
    → let (next, s') = proceed env config (looked_up (broadcast_task d)) s in
      (broadcast_deposit env config d s).1 ≡ case_option next s' λ c. (proceed env config c s').1
unfolding broadcast_deposit check_existence proceed load pure ◌>>=◌
proceed-broadcast_deposit env config d s new = ground arith

-- The hash of a deposit that comes in holds no slash, so it is no key.
abbrev pub IsPlain : Call → Type 0
IsPlain (looked_up (broadcast_task d)) = has_slash (codes d.tx_hash) ≡ false
IsPlain (looked_up (catch_up_task d)) = Unit
IsPlain (checked d) = has_slash (codes d.tx_hash) ≡ false

-- What a call does to the cache and to the queue, and that it keeps its key if it goes on.
abbrev pub Proceeds : Call → Service → Option Call × Service → Type 0
Proceeds c s (none, s') = Effect (call_key c) s s'
Proceeds c s (some next, s') =
    (call_key next ≡ call_key c)
    × IsPlain next
    × (s'.cache ≡ s.cache)
    × (s'.withdrawals ≡ s.withdrawals)

check_uncached-withdrawals :
    (env : Environment) (config : Config) (d : Deposit) (s : Service)
    → (check_uncached env config d s).1.withdrawals ≡ s.withdrawals
unfolding check_uncached ◌>>=◌ store on_world now
check_uncached-withdrawals env config d s = ground arith

check_uncached-passes :
    (env : Environment) (config : Config) (d : Deposit) (s : Service)
    → (check_uncached env config d s).0 ≡ none
    → (check_uncached env config d s).1.cache ≡ s.cache
unfolding check_uncached ◌>>=◌ store on_world now
check_uncached-passes env config d s e = ground arith

check_uncached-cache :
    (env : Environment) (config : Config) (d : Deposit) (s : Service)
    → cached (id_string d.identifier) s.cache ≡ false
    → ((check_uncached env config d s).1.cache ≡ s.cache)
      ⊎ ((check_uncached env config d s).1.cache ≡ id_string d.identifier ∷ s.cache)
unfolding check_uncached ◌>>=◌ store on_world now
check_uncached-cache env config d s new = ground arith

looked_up-Proceeds :
    (env : Environment) (config : Config) (d : Deposit) (s : Service)
    → has_slash (codes d.tx_hash) ≡ false
    → cached (id_string d.identifier) s.cache ≡ false
    → Proceeds
        (looked_up (broadcast_task d))
        s
        (proceed env config (looked_up (broadcast_task d)) s)
unfolding proceed ◌>>=◌ pure
looked_up-Proceeds env config d s plain new =
    let tasks = check_uncached-withdrawals env config d s in
    elim (Option-cases (check_uncached env config d s).0) [
      | inl e ↦ rw e (refl, plain, check_uncached-passes env config d s e, tasks)
      | inr (x, e) ↦ elim (check_uncached-cache env config d s new) [
        | inl same ↦ rw e (inl (same, tasks))
        | inr stored ↦ rw e (inr (inl (new, stored, tasks)))
      ]
    ]

admit-Effect :
    (env : Environment) (config : Config) (d : Deposit) (s : Service)
    → cached (codes d.tx_hash) s.cache ≡ false
    → cached (id_string d.identifier) s.cache ≡ false
    → Effect (id_string d.identifier) s (admit env config d s).1
unfolding admit enqueue spawn ◌>>=◌ load store on_world now prepared
admit-Effect env config d s plain new = elim (Option-cases (admit env config d s).0) [
  | inl done ↦ inr (
      inr (
        broadcast_task (prepared (env.now s.world.calls) d),
        refl,
        new,
        ground arith,
        ground arith,
      ))
  | inr (e, failed) ↦ inl (ground arith, ground arith)
]

catch_up-uncached :
    (env : Environment) (config : Config) (d : Deposit) (s : Service)
    → cached (id_string d.identifier) s.cache ≡ false
    → catch_up env config d s ≡ resume_uncached env config d s
unfolding catch_up load ◌>>=◌
catch_up-uncached env config d s new = rw new refl

resume_uncached-Effect :
    (env : Environment) (config : Config) (d : Deposit) (s : Service)
    → cached (id_string d.identifier) s.cache ≡ false
    → Effect (id_string d.identifier) s (resume_uncached env config d s).1
resume_uncached-Effect env config d s new =
    subst (λ (x : Option Error × Service). Effect (id_string d.identifier) s x.1)
      (catch_up-uncached env config d s new) (catch_up-Effect env config d s)

pub proceed-Proceeds :
    (env : Environment) (config : Config) (c : Call) (s : Service)
    → IsPlain c
    → All (λ k. has_slash k ≡ true) s.cache
    → cached (call_key c) s.cache ≡ false
    → Proceeds c s (proceed env config c s)
proceed-Proceeds env config (looked_up (broadcast_task d)) s plain keyed new =
    looked_up-Proceeds env config d s plain new
proceed-Proceeds env config (looked_up (catch_up_task d)) s plain keyed new =
    unfold proceed ◌>>=◌ pure in resume_uncached-Effect env config d s new
proceed-Proceeds env config (checked d) s plain keyed new =
    unfold proceed ◌>>=◌ pure in
    admit-Effect env config d s (cached_keyed s.cache (codes d.tx_hash) keyed plain) new
