-- ===== src/Startup/Served.antt =====
-- A container that a started service can queue has a worker.
use relayer_svc.Base.{
  ℕ, zero, suc, ◌==◌, ◌≡◌, ◌≢◌, refl, sym, subst, String, str_eq, eq_iff, Bool, true, false, none,
  some, List, [], ◌∷◌, ◌++◌, map, All, arith, Option-cases, Bool-cases, inl, inr, if◌then◌else◌,
}
use mathlib.Core.List.{append_assoc}
use relayer_svc.Types.{err_panic, Result, ok, err, case_result}
use relayer_svc.Chain.Config.{Chain}
use relayer_svc.Repository.{
  Client, Clients, find_client, client, new_clients_repository, last_of,
  client-new_clients_repository,
}
use relayer_svc.Broadcaster.{Config, pick_child}
use relayer_svc.Broadcaster.Run.{
  Goroutine, withdrawal_worker, signers_worker, core_submitter, start_workers,
  start_clients_workers, run, serves_withdrawals, serves_signers,
}
use relayer_svc.Startup.{Setup, Configured, start_clients, repository_client}
use relayer_svc.Startup.Staffed.{IsStaffed, start_clients-IsStaffed}

-- Both kinds of workers serve the chain.
abbrev pub IsServed : String → List Goroutine → Type 0
IsServed id gs = (serves_withdrawals id gs ≡ true) × (serves_signers id gs ≡ true)

IsServed-after : (id : String) (gs hs : List Goroutine) → IsServed id hs → IsServed id (gs ++ hs)
unfolding serves_withdrawals serves_signers
IsServed-after id [] hs h = h
IsServed-after id (withdrawal_worker j n ∷ gs) hs h =
    let k = IsServed-after id gs hs h in (ground (arith, k.0), k.1)
IsServed-after id (signers_worker j n ∷ gs) hs h =
    let k = IsServed-after id gs hs h in (k.0, ground (arith, k.1))
IsServed-after id (core_submitter ∷ gs) hs h = IsServed-after id gs hs h

IsServed-started :
    (id : String) (n : ℕ) (gs : List Goroutine) → n ≢ 0 → IsServed id (start_workers id 0 n ++ gs)
unfolding serves_withdrawals serves_signers start_workers
IsServed-started id zero gs h = absurd (h refl)
IsServed-started id (suc n) gs h = (ground (arith, eq_iff id id), ground (arith, eq_iff id id))

-- The clients that are found have workers, so they are served.
IsServed-found :
    (id : String) (c : Client) (m : Clients) (gs : List Goroutine)
    → find_client id m ≡ some c
    → c.workers_count ≢ 0
    → IsServed id (start_clients_workers m ++ gs)
unfolding find_client start_clients_workers
IsServed-found id c [] gs e h = absurd (cc e)
IsServed-found id c ((j, c') ∷ m) gs e h =
    subst (IsServed id)
      (sym (append_assoc (start_workers j 0 c'.workers_count) (start_clients_workers m) gs))
      (elim (Bool-cases (str_eq j id)) [
        | inl q ↦
            subst
              (λ k.
                IsServed id (start_workers k 0 c'.workers_count ++ (start_clients_workers m ++ gs)))
              (sym ((eq_iff j id).0 q))
              (IsServed-started id c'.workers_count (start_clients_workers m ++ gs) (
                let same : c ≡ c' = ground (arith, e, q) in
                subst (λ (x : Client). x.workers_count ≢ 0) same h))
        | inr q ↦
            IsServed-after id (start_workers j 0 c'.workers_count) (start_clients_workers m ++ gs)
              (IsServed-found id c m gs (ground (arith, e, q)) h)
      ])

-- As many workers as children.
abbrev IsMatched : Client → Type 0
IsMatched c = c.workers_count ≡ c.child_clients

IsMatched-repository_client : (c : Configured) → IsStaffed c → IsMatched (repository_client c)
unfolding repository_client
IsMatched-repository_client c (e, h) = rw e refl

All-IsMatched : (cs : List Configured) → All IsStaffed cs → All IsMatched (map repository_client cs)
All-IsMatched [] h = tt
All-IsMatched (c ∷ cs) h = (IsMatched-repository_client c h.0, All-IsMatched cs h.1)

last_here :
    (b : Bool) (c' c : Client) → (if b then some c' else none) ≡ some c → (b ≡ true) × (c' ≡ c)
last_here true c' c e = (refl, cc e)
last_here false c' c e = absurd (cc e)

last_of-All :
    (id : String) (cs : List Client) (c : Client)
    → All IsMatched cs
    → last_of id cs ≡ some c
    → IsMatched c
last_of-All id [] c h e = absurd (cc e)
last_of-All id (c' ∷ cs) c h e = elim (Option-cases (last_of id cs)) [
  | inl q ↦
      let (k, same) = last_here (str_eq c'.chain_id id) c' c (ground (arith, e, q)) in
      subst IsMatched same h.0
  | inr (x, q) ↦ last_of-All id cs c h.1 (ground (arith, e, q))
]

-- The child that is picked belongs to the last client of the chain.
picked :
    (config : Config) (id : String)
    → pick_child config id ≡ none
    → (c : Client) × (client config.clients id ≡ ok c) × (c.child_clients ≢ 0)
unfolding pick_child
picked config id h = go (client config.clients id) refl h
  where
    go :
        (r : Result Client)
        → client config.clients id ≡ r
        → case_result r (λ c. if c.child_clients == 0 then some err_panic else none) some ≡ none
        → (c : Client) × (client config.clients id ≡ ok c) × (c.child_clients ≢ 0)
    go (ok c) e k = (c, e, λ z. ground (arith, k, z))
    go (err x) e k = absurd (cc k)

found_of_client :
    (m : Clients) (id : String) (c : Client) → client m id ≡ ok c → find_client id m ≡ some c
unfolding client
found_of_client m id c h = ground (arith, h)

-- In a service that has started, a chain for which a container can be queued has workers of both kinds
-- among the goroutines that `Run` starts.
pub IsServed-pick_child :
    (x : Setup) (configs : List Chain) (cs : List Configured) (config : Config) (id : String)
    → start_clients x configs ≡ some cs
    → config.clients ≡ new_clients_repository (map repository_client cs)
    → pick_child config id ≡ none
    → IsServed id (run config.clients)
unfolding run
IsServed-pick_child x configs cs config id started e h =
    let (c, q, k) = picked config id h in
    let last : last_of id (map repository_client cs) ≡ some c =
      ground (arith, q, e, (client-new_clients_repository id (map repository_client cs)).0) in
    IsServed-found id c config.clients (core_submitter ∷ []) (found_of_client config.clients id c q)
      (subst (λ n. n ≢ 0)
        (sym (
          last_of-All id (map repository_client cs) c
            (All-IsMatched cs (start_clients-IsStaffed x configs cs started)) last))
        k)
