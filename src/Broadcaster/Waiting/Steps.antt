-- ===== src/Broadcaster/Waiting/Steps.antt =====
-- The steps of the broadcaster, and the states that they reach.
use relayer_svc.Base.{
  Option, none, some, case_option, pure, ◌>>=◌, ◌∷◌, ℕ, ◌≡◌, refl, sym, subst, inl, true, false,
  List, All,
}
use relayer_svc.Chain.{ChainType}
use relayer_svc.Chain.Hashes.{transaction_hash_valid, transaction_hash_valid-has_slash}
use relayer_svc.Db.{Deposit, Epoch}
use relayer_svc.Db.Text.{id_string}
use relayer_svc.Db.Keys.{has_slash}
use relayer_svc.Env.{Environment, World}
use relayer_svc.Broadcaster.{Service, Config, Task, broadcast_task, on_world, cached}
use relayer_svc.Broadcaster.Admission.{task_deposit, task_key}
use relayer_svc.Broadcaster.Waiting.Calls.{
  Call, looked_up, checked, call_key, IsPlain, proceed, Busy, advance, Proceeds, proceed-Proceeds,
}
use relayer_svc.Broadcaster.Workers.{
  take_task, run_withdrawal_network_worker, run_update_signers_network_worker, work_signers,
}
use relayer_svc.Broadcaster.Waiting.{
  NoneFor, AllDiffer, IsOrderly, id_string-has_slash, IsOrderly-of_Effect,
}
use relayer_svc.Broadcaster.Waiting.Fresh.{IsFresh, IsFresh-Effect, IsFresh-works}
use relayer_svc.Broadcaster.Waiting.Rounds.{Received, take_task-Received, work-IsOrderly}

-- What can happen to the broadcaster: a call of `BroadcastDeposit` or `CatchUp` finds that the cache does not
-- have its deposit, while no other call for the same deposit is in flight; any call in flight goes on; a
-- worker takes any waiting task, the submitter takes what waits for it, and the world outside moves on.
pub data Step (env : Environment) (config : Config) (b : Busy) : Busy → Type 0 where
  looks_up :
      (t : Task)
      → IsPlain (looked_up t)
      → cached (task_key t) b.service.cache ≡ false
      → NoneFor call_key (task_key t) b.calls
      → Step env config b (record b { calls = looked_up t ∷ b.calls })
  advances : (i : ℕ) → Step env config b (advance env config i b)
  works :
      (i : ℕ)
      → Step env config b (record b { service = (run_withdrawal_network_worker env i b.service).1 })
  updates :
      (i : ℕ)
      → Step env config b
          (record b { service = (run_update_signers_network_worker env i b.service).1 })
  moves :
      (w : World) (ds : List Deposit)
      → Step env config b
          (record b { service = record (b.service) { world = w; submissions = ds } })

pub data Reaches (env : Environment) (config : Config) (b : Busy) : Busy → Type 0 where
  here : Reaches env config b b
  next : {t u : Busy} → Reaches env config b t → Step env config t u → Reaches env config b u

-- A deposit whose hash some client holds to be valid may come in.
looks_up_valid :
    (env : Environment) (config : Config) (b : Busy) (t : ChainType) (d : Deposit)
    → transaction_hash_valid t d.tx_hash ≡ true
    → cached (id_string d.identifier) b.service.cache ≡ false
    → NoneFor call_key (id_string d.identifier) b.calls
    → Step env config b (record b { calls = looked_up (broadcast_task d) ∷ b.calls })
looks_up_valid env config b t d h =
    looks_up (broadcast_task d) (transaction_hash_valid-has_slash t d.tx_hash h)

-- The waiting tasks are orderly, and the calls in flight are for different deposits, whose keys are not in
-- the cache.
pub record IsOrderlyBusy (b : Busy) : Type 0 where
  pub orderly : IsOrderly b.service
  pub fresh : All (IsFresh b.service.cache) b.calls
  pub apart : AllDiffer call_key b.calls

-- What is left of a call, put back with the others.
proceeded-IsOrderlyBusy :
    (c : Call) (s : Service) (rest : List Call) (r : Option Call × Service)
    → has_slash (call_key c) ≡ true
    → IsOrderly s
    → IsFresh s.cache c
    → All (IsFresh s.cache) rest
    → NoneFor call_key (call_key c) rest
    → AllDiffer call_key rest
    → Proceeds c s r
    → IsOrderlyBusy (record { service = r.1; calls = case_option r.0 rest λ x. x ∷ rest })
proceeded-IsOrderlyBusy c s rest (none, s') slashed h f others away apart effect = record {
  orderly = IsOrderly-of_Effect (call_key c) s s' slashed effect h;
  fresh = IsFresh-Effect (call_key c) s s' rest effect away others;
  apart = apart;
}
proceeded-IsOrderlyBusy c s rest (some x, s') slashed h f others away apart (own, p, k, t) =
    record {
      orderly = IsOrderly-of_Effect (call_key c) s s' slashed (inl (k, t)) h;
      fresh = subst (λ cache. All (IsFresh cache) (x ∷ rest)) (sym k) ((p, rw own f.1), others);
      apart = (rw own away, apart);
    }

call_key-has_slash : (c : Call) → has_slash (call_key c) ≡ true
call_key-has_slash (looked_up t) = id_string-has_slash (task_deposit t)
call_key-has_slash (checked d) = id_string-has_slash d

advanced-IsOrderlyBusy :
    (env : Environment) (config : Config) (r : Option (Call × List Call)) (b : Busy)
    → IsOrderlyBusy b
    → Received call_key (IsFresh b.service.cache) r
    → IsOrderlyBusy (
        case_option r b λ (q : Call × List Call).
          let (x, s) = proceed env config q.0 b.service in
          record { service = s; calls = case_option x q.1 λ c. c ∷ q.1 })
advanced-IsOrderlyBusy env config none b h k = h
advanced-IsOrderlyBusy env config (some (c, rest)) b h (f, others, away, apart) =
    proceeded-IsOrderlyBusy c b.service rest (proceed env config c b.service) (call_key-has_slash c)
      h.orderly f others away apart
      (proceed-Proceeds env config c b.service f.0 h.orderly.keyed f.1)

-- A round of the signers' worker leaves the cache and the deposits' queue alone.
IsOrderly-update_signers :
    (env : Environment) (r : Option (Epoch × List Epoch)) (s : Service)
    → IsOrderly s
    → IsOrderly
        (case_option r
          (none, s)
          λ (x : Epoch × List Epoch). work_signers env x.0 (record s { signers = x.1 })).1
unfolding work_signers on_world ◌>>=◌ pure
IsOrderly-update_signers env none s h = h
IsOrderly-update_signers env (some x) s h = record {
  keyed = h.keyed;
  known = h.known;
  distinct = h.distinct;
}

cache-update_signers :
    (env : Environment) (r : Option (Epoch × List Epoch)) (s : Service)
    → (case_option r
        (none, s)
        λ (x : Epoch × List Epoch). work_signers env x.0 (record s { signers = x.1 })).1.cache
      ≡ s.cache
unfolding work_signers on_world ◌>>=◌ pure
cache-update_signers env none s = refl
cache-update_signers env (some x) s = refl

Step-IsOrderlyBusy :
    (env : Environment) (config : Config) {b c : Busy}
    → Step env config b c
    → IsOrderlyBusy b
    → IsOrderlyBusy c
unfolding run_withdrawal_network_worker run_update_signers_network_worker advance
Step-IsOrderlyBusy env config (looks_up t plain new free) h = record {
  orderly = h.orderly;
  fresh = ((plain, new), h.fresh);
  apart = (free, h.apart);
}
Step-IsOrderlyBusy env config {b} (advances i) h =
    advanced-IsOrderlyBusy env config (take_task i b.calls) b h
      (take_task-Received call_key _ i b.calls h.fresh h.apart)
Step-IsOrderlyBusy env config {b} (works i) h = record {
  orderly =
      work-IsOrderly env (take_task i b.service.withdrawals) b.service h.orderly
        (take_task-Received task_key _ i b.service.withdrawals h.orderly.known h.orderly.distinct);
  fresh = IsFresh-works env (take_task i b.service.withdrawals) b.service b.calls h.fresh;
  apart = h.apart;
}
Step-IsOrderlyBusy env config {b} (updates i) h = record {
  orderly = IsOrderly-update_signers env (take_task i b.service.signers) b.service h.orderly;
  fresh =
      subst (λ cache. All (IsFresh cache) b.calls)
        (sym (cache-update_signers env (take_task i b.service.signers) b.service)) h.fresh;
  apart = h.apart;
}
Step-IsOrderlyBusy env config (moves w ds) h = record {
  orderly = record {
    keyed = h.orderly.keyed;
    known = h.orderly.known;
    distinct = h.orderly.distinct;
  };
  fresh = h.fresh;
  apart = h.apart;
}

-- Take a state where no two waiting tasks are for the same deposit, each waiting task's key is in the
-- cache, each key of the cache has a slash, and the calls of `BroadcastDeposit` and `CatchUp` in flight are
-- for different deposits, whose keys are not in the cache. From there on every state that is reached in any
-- order by the parts of such calls, by rounds of both kinds of workers and by changes outside is such a
-- state, if no call for a deposit starts while another one for the same deposit is in flight, and the
-- hashes of the deposits that come in hold no slash.
pub Reaches-IsOrderly :
    (env : Environment) (config : Config) {b c : Busy}
    → IsOrderlyBusy b
    → Reaches env config b c
    → IsOrderlyBusy c
Reaches-IsOrderly env config h here = h
Reaches-IsOrderly env config h (next r st) =
    Step-IsOrderlyBusy env config st (Reaches-IsOrderly env config h r)
