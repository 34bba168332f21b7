-- ===== src/Broadcaster/Waiting/Rounds.antt =====
-- What a worker's round does to the cache and to the waiting tasks.
use relayer_svc.Base.{
  ℕ, zero, suc, ◌≡◌, refl, ◌⊎◌, inl, inr, true, false, Option, none, some, List, [], ◌∷◌, All,
  All-both, All-map, Bool-cases, ◌∙◌, arith, ◌>>=◌, case_option,
}
use relayer_svc.Db.{DepositIdentifier}
use relayer_svc.Db.Text.{id_string, text_eq, text_eq_iff}
use relayer_svc.Env.{Environment, World}
use relayer_svc.Broadcaster.{
  Service, Task, broadcast_task, catch_up_task, on_world, cached, uncache,
}
use relayer_svc.Broadcaster.Workers.{settle, run_container, work, take_task}
use relayer_svc.Containers.{Outcome}
use relayer_svc.Containers.Returned.{Answers, broadcast-Answers, catchup-Answers}
use relayer_svc.Broadcaster.Admission.{task_deposit, task_key}
use relayer_svc.Broadcaster.Waiting.{NoneFor, AllDiffer, NoTaskFor, IsOrderly}

-- A worker round forgets its own task's key, at most.
settle-effect :
    (id : DepositIdentifier) (o : Outcome) (s : Service)
    → Answers id o
    → ((settle o s).1.withdrawals ≡ s.withdrawals)
      × (((settle o s).1.cache ≡ s.cache) ⊎ ((settle o s).1.cache ≡ uncache (id_string id) s.cache))
unfolding settle
settle-effect id (none, none) s h = (refl, inl refl)
settle-effect id (none, some e) s h = (refl, inl refl)
settle-effect id (some d, none) s h = (refl, inl refl)
settle-effect id (some d, some e) s h = (refl, inr (rw h))

pub container-Answers :
    (env : Environment) (t : Task) (w : World)
    → Answers (task_deposit t).identifier (run_container env t w).0
unfolding run_container
container-Answers env (broadcast_task d) w = broadcast-Answers env d w
container-Answers env (catch_up_task d) w = catchup-Answers env d w

pub work-effect :
    (env : Environment) (t : Task) (s : Service)
    → ((work env t s).1.withdrawals ≡ s.withdrawals)
      × (((work env t s).1.cache ≡ s.cache)
          ⊎ ((work env t s).1.cache ≡ uncache (task_key t) s.cache))
unfolding work ◌>>=◌ on_world
work-effect env t s = settle-effect _ _ _ (container-Answers env t s.world)

All-uncache {κ} :
    (P : List ℕ → Type κ) (key : List ℕ) (keys : List (List ℕ))
    → All P keys
    → All P (uncache key keys)
unfolding uncache
All-uncache P key [] h = tt
All-uncache P key (k ∷ ks) h = elim (Bool-cases (text_eq k key)) [
  | inl same ↦ rw same (All-uncache P key ks h.1)
  | inr other ↦ rw other (h.0, All-uncache P key ks h.1)
]

pub cached-uncache :
    (key other : List ℕ) (keys : List (List ℕ))
    → text_eq other key ≡ false
    → cached other (uncache key keys) ≡ cached other keys
unfolding cached uncache
cached-uncache key other [] h = refl
cached-uncache key other (k ∷ ks) h = ground (
  arith,
  text_eq_iff k key,
  text_eq_iff k other,
  text_eq_iff other key,
  cached-uncache key other ks h,
)

known-uncache :
    (key : List ℕ) (keys : List (List ℕ)) (ts : List Task)
    → NoTaskFor key ts
    → All (λ t. cached (task_key t) keys ≡ true) ts
    → All (λ t. cached (task_key t) (uncache key keys) ≡ true) ts
known-uncache key keys [] n h = tt
known-uncache key keys (t ∷ ts) n h =
    (cached-uncache key (task_key t) keys n.0 ∙ h.0, known-uncache key keys ts n.1 h.1)

text_eq_comm : (a b : List ℕ) → text_eq a b ≡ text_eq b a
text_eq_comm a b = ground (arith, text_eq_iff a b, text_eq_iff b a)

module _ {A : Type 0} (key_of : A → List ℕ) where
  -- What was received, and what stays: all keep what held before, and nothing that stays has the key of
  -- what was received.
  abbrev pub Received : (A → Type 0) → Option (A × List A) → Type 0
  Received P none = Unit {0}
  Received P (some (t, rest)) =
      P t × All P rest × NoneFor key_of (key_of t) rest × AllDiffer key_of rest

  Received-later :
      (P : A → Type 0) (u : A) (r : Option (A × List A))
      → P u
      → Received (λ x. P x × (text_eq (key_of x) (key_of u) ≡ false)) r
      → Received P (case_option r none λ (q : A × List A). some (q.0, u ∷ q.1))
  Received-later P u none h k = tt
  Received-later P u (some (t, rest)) h ((p, away), others, apart, distinct) = (
    p,
    (h, All-map _ P (λ x q. q.0) rest others),
    (text_eq_comm (key_of u) (key_of t) ∙ away, apart),
    (All-map _ _ (λ x q. q.1) rest others, distinct),
  )

  pub take_task-Received :
      (P : A → Type 0) (i : ℕ) (ts : List A)
      → All P ts
      → AllDiffer key_of ts
      → Received P (take_task i ts)
  unfolding take_task
  take_task-Received P i [] h k = tt
  take_task-Received P zero (u ∷ us) h k = (h.0, h.1, k.0, k.1)
  take_task-Received P (suc i) (u ∷ us) h k = Received-later P u (take_task i us) h.0 (
      take_task-Received (λ x. P x × (text_eq (key_of x) (key_of u) ≡ false)) i us
        (All-both P _ us h.1 k.0) k.1)

pub work-IsOrderly :
    (env : Environment) (r : Option (Task × List Task)) (s : Service)
    → IsOrderly s
    → Received task_key (λ t. cached (task_key t) s.cache ≡ true) r
    → IsOrderly
        (case_option r
          (none, s)
          λ (q : Task × List Task). work env q.0 (record s { withdrawals = q.1 })).1
work-IsOrderly env none s h k = h
work-IsOrderly env (some (t, rest)) s h (_, known, apart, distinct) =
    let (tasks, cache) = work-effect env t (record s { withdrawals = rest }) in
    elim cache [
      | inl same ↦ record {
        keyed = rw same h.keyed;
        known = rw (same, tasks) known;
        distinct = rw tasks distinct;
      }
      | inr less ↦ record {
        keyed = rw less (All-uncache _ (task_key t) s.cache h.keyed);
        known = rw (less, tasks) (known-uncache (task_key t) s.cache rest apart known);
        distinct = rw tasks distinct;
      }
    ]
