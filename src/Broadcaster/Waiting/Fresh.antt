-- ===== src/Broadcaster/Waiting/Fresh.antt =====
-- Calls in flight whose deposits are not in the cache, while the cache changes.
use relayer_svc.Base.{
  Option, none, some, case_option, [], ◌∷◌, ℕ, ◌≡◌, refl, inl, inr, false, List, All, arith,
}
use relayer_svc.Env.{Environment}
use relayer_svc.Db.Text.{text_eq_iff}
use relayer_svc.Broadcaster.{Service, Task, cached, uncache}
use relayer_svc.Broadcaster.Admission.{task_key, Effect}
use relayer_svc.Broadcaster.Waiting.Calls.{Call, call_key, IsPlain}
use relayer_svc.Broadcaster.Workers.{work}
use relayer_svc.Broadcaster.Waiting.{NoneFor}
use relayer_svc.Broadcaster.Waiting.Rounds.{work-effect}

-- A call in flight that may go on: its deposit is not in the cache.
abbrev pub IsFresh : List (List ℕ) → Call → Type 0
IsFresh cache c = IsPlain c × (cached (call_key c) cache ≡ false)

-- One key more in the cache is no key of the calls that do not have it.
IsFresh-cons :
    (key : List ℕ) (cache : List (List ℕ)) (cs : List Call)
    → NoneFor call_key key cs
    → All (IsFresh cache) cs
    → All (IsFresh (key ∷ cache)) cs
unfolding cached
IsFresh-cons key cache [] n h = tt
IsFresh-cons key cache (c ∷ cs) n h = (
  (h.0.0, ground (arith, n.0, h.0.1, text_eq_iff key (call_key c), text_eq_iff (call_key c) key)),
  IsFresh-cons key cache cs n.1 h.1,
)

pub IsFresh-Effect :
    (key : List ℕ) (s s' : Service) (cs : List Call)
    → Effect key s s'
    → NoneFor call_key key cs
    → All (IsFresh s.cache) cs
    → All (IsFresh s'.cache) cs
IsFresh-Effect key s s' cs (inl (c, t)) n h = rw c h
IsFresh-Effect key s s' cs (inr (inl (new, c, t))) n h = rw c (IsFresh-cons key s.cache cs n h)
IsFresh-Effect key s s' cs (inr (inr (u, own, new, c, t))) n h =
    rw c (IsFresh-cons key s.cache cs n h)

-- A key that a round takes out of the cache makes no call's key known.
still_uncached :
    (key other : List ℕ) (keys : List (List ℕ))
    → cached other keys ≡ false
    → cached other (uncache key keys) ≡ false
unfolding cached uncache
still_uncached key other [] h = refl
still_uncached key other (k ∷ ks) h = ground (arith, still_uncached key other ks)

IsFresh-uncache :
    (key : List ℕ) (cache : List (List ℕ)) (cs : List Call)
    → All (IsFresh cache) cs
    → All (IsFresh (uncache key cache)) cs
IsFresh-uncache key cache [] h = tt
IsFresh-uncache key cache (c ∷ cs) h =
    ((h.0.0, still_uncached key (call_key c) cache h.0.1), IsFresh-uncache key cache cs h.1)

pub IsFresh-works :
    (env : Environment) (r : Option (Task × List Task)) (s : Service) (cs : List Call)
    → All (IsFresh s.cache) cs
    → All
        (IsFresh
          (case_option r
            (none, s)
            λ (q : Task × List Task). work env q.0 (record s { withdrawals = q.1 })).1.cache)
        cs
IsFresh-works env none s cs h = h
IsFresh-works env (some (t, rest)) s cs h =
    elim (work-effect env t (record s { withdrawals = rest })).1 [
      | inl same ↦ rw same h
      | inr less ↦ rw less (IsFresh-uncache (task_key t) s.cache cs h)
    ]
