-- ===== src/Broadcaster/Waiting.antt =====
-- What it is for the waiting tasks to be orderly: they have different keys, each of them in the cache.
pub mod Effects
pub mod Rounds
pub mod Calls
pub mod Fresh
pub mod Steps
use relayer_svc.Base.{
  ℕ, zero, suc, ◌≡◌, ◌≢◌, refl, ◌⊎◌, inl, inr, Bool, true, false, ◌||◌, Option, none, some, List,
  [], ◌∷◌, ◌++◌, All, All-append, All-both, All-map, Option-cases, Bool-cases, ◌∙◌, arith,
  if◌then◌else◌, ◌>>=◌, case_option, ◌==◌,
}
use relayer_svc.Types.{Error}
use relayer_svc.Db.{DepositIdentifier, Deposit}
use relayer_svc.Db.Text.{codes, slash, id_string, text_eq, text_eq_iff}
use relayer_svc.Db.Keys.{has_slash}
use relayer_svc.Env.{Environment, World}
use relayer_svc.Broadcaster.{
  Service, Config, Task, broadcast_task, catch_up_task, on_world, cached, load, store, now,
  check_existence, prepared, spawn, broadcast_deposit, uncache,
}
use relayer_svc.Broadcaster.CatchUp.{catch_up}
use relayer_svc.Broadcaster.Workers.{
  settle, run_container, work, take_task, run_withdrawal_network_worker,
}
use relayer_svc.Containers.{Outcome}
use relayer_svc.Containers.Returned.{Answers, broadcast-Answers, catchup-Answers}
use relayer_svc.Broadcaster.Admission.{
  task_deposit, task_key, cached_self, Effect, admission_time, broadcast_deposit_queues,
  withdrawals-broadcast_deposit,
}

-- None of the things has the key given.
abbrev pub NoneFor : {A : Type 0} → (A → List ℕ) → List ℕ → List A → Type 0
NoneFor key_of key xs = All (λ x. text_eq (key_of x) key ≡ false) xs

-- The things have different keys.
abbrev pub AllDiffer : {A : Type 0} → (A → List ℕ) → List A → Type 0
AllDiffer key_of [] = Unit {0}
AllDiffer key_of (x ∷ xs) = NoneFor key_of (key_of x) xs × AllDiffer key_of xs

abbrev pub NoTaskFor : List ℕ → List Task → Type 0
NoTaskFor = NoneFor task_key

abbrev pub HasDistinctKeys : List Task → Type 0
HasDistinctKeys = AllDiffer task_key

pub record IsOrderly (s : Service) : Type 0 where
  pub keyed : All (λ k. has_slash k ≡ true) s.cache
  pub known : All (λ t. cached (task_key t) s.cache ≡ true) s.withdrawals
  pub distinct : HasDistinctKeys s.withdrawals

-- A text without a slash is no key.
cached_keyed :
    (keys : List (List ℕ)) (text : List ℕ)
    → All (λ k. has_slash k ≡ true) keys
    → has_slash text ≡ false
    → cached text keys ≡ false
unfolding cached
cached_keyed [] text h p = refl
cached_keyed (k ∷ ks) text h p = ground (arith, text_eq_iff k text, h.0, cached_keyed ks text h.1)

has_slash-append : (s t : List ℕ) → has_slash (s ++ slash ∷ t) ≡ true
unfolding has_slash
has_slash-append [] t = ground arith
has_slash-append (c ∷ s) t = ground (arith, has_slash-append s t)

-- One more key in the cache forgets no task.
known-cons :
    (key : List ℕ) (keys : List (List ℕ)) (ts : List Task)
    → All (λ t. cached (task_key t) keys ≡ true) ts
    → All (λ t. cached (task_key t) (key ∷ keys) ≡ true) ts
unfolding cached
known-cons key keys [] h = tt
known-cons key keys (t ∷ ts) h = (ground (arith, h.0), known-cons key keys ts h.1)

-- A key that the cache does not have belongs to no waiting task.
absent :
    (key : List ℕ) (keys : List (List ℕ)) (ts : List Task)
    → All (λ t. cached (task_key t) keys ≡ true) ts
    → cached key keys ≡ false
    → NoTaskFor key ts
absent key keys [] h e = tt
absent key keys (t ∷ ts) h e =
    (ground (arith, text_eq_iff (task_key t) key, h.0), absent key keys ts h.1 e)

distinct-snoc :
    (t : Task) (ts : List Task)
    → NoTaskFor (task_key t) ts
    → HasDistinctKeys ts
    → HasDistinctKeys (ts ++ t ∷ [])
distinct-snoc t [] h k = (tt, tt)
distinct-snoc t (u ∷ us) h k = (
  All-append _ us (t ∷ []) k.0 (
    ground
        (arith, h.0, text_eq_iff (task_key t) (task_key u), text_eq_iff (task_key u) (task_key t)),
    tt,
  ),
  distinct-snoc t us h.1 k.1,
)

id_string-has_slash : (d : Deposit) → has_slash (id_string d.identifier) ≡ true
unfolding id_string
id_string-has_slash d = has_slash-append (codes d.chain_id) _

IsOrderly-of_Effect :
    (key : List ℕ) (s s' : Service)
    → has_slash key ≡ true
    → Effect key s s'
    → IsOrderly s
    → IsOrderly s'
IsOrderly-of_Effect key s s' slashed (inl (c, t)) h = record {
  keyed = rw c h.keyed;
  known = rw (c, t) h.known;
  distinct = rw t h.distinct;
}
IsOrderly-of_Effect key s s' slashed (inr (inl (new, c, t))) h = record {
  keyed = rw c (slashed, h.keyed);
  known = rw (c, t) (known-cons key s.cache s.withdrawals h.known);
  distinct = rw t h.distinct;
}
IsOrderly-of_Effect key s s' slashed (inr (inr (u, own, new, c, t))) h = record {
  keyed = rw c (slashed, h.keyed);
  known =
      rw (c, t)
        (All-append _ s.withdrawals (u ∷ []) (known-cons key s.cache s.withdrawals h.known)
          (rw own (cached_self key s.cache), tt));
  distinct = rw t (
      distinct-snoc u s.withdrawals (rw own (absent key s.cache s.withdrawals h.known new))
        h.distinct);
}
