-- ===== src/Broadcaster/Resumption.antt =====
-- `CatchUpper.Start`: what the service takes up again when it starts.
pub mod Marks
pub mod Phases
pub mod Keys
use relayer_svc.Base.{
  ℕ, ◌≡◌, refl, ap, sym, subst, ◌∙◌, Bool, false, ◌||◌, Option, none, List, [], ◌∷◌, ◌++◌, map, All,
  State, ◌>>=◌, arith,
}
use mathlib.Core.List.{append_assoc, map-append}
use relayer_svc.Types.{
  Error, pending, processing, submitting_to_core, status_number, epoch_pending, epoch_failed,
}
use relayer_svc.Db.{Deposit}
use relayer_svc.Env.{Environment}
use relayer_svc.Postgres.{select_all}
use relayer_svc.Postgres.Deposits.{has_status, set_status}
use relayer_svc.Postgres.Rows.{HasUniqueKeys}
use relayer_svc.Broadcaster.{Service, Config, catch_up_task}
use relayer_svc.Broadcaster.CatchUp.{
  catchup_with_status, catchup_epochs_with_status, start, or_stop,
}
use relayer_svc.Broadcaster.Resumption.Keys.{IsPlain, unfinished-AreNew}
use relayer_svc.Broadcaster.Resumption.Marks.{marked, select_all-marked, marked-HasUniqueKeys}
use relayer_svc.Broadcaster.Resumption.Phases.{
  reads, early, unfinished, AreNew, HasChild, Queues, store_all, Spares, AreNew-append, All-split,
  or_stop-first, or_stop-Spares, catchup_epochs-Spares, catchup_with_status-Queues,
}

-- A withdrawal that was interrupted.
abbrev was_interrupted : Deposit → Bool
was_interrupted d = has_status processing d || has_status submitting_to_core d

marked-phases :
    (t : List Deposit)
    → marked
        (has_status submitting_to_core)
        (marked (has_status processing) (marked (has_status pending) t))
      ≡ marked was_interrupted t
unfolding has_status set_status status_number
marked-phases [] = refl
marked-phases (r ∷ t) = ground (arith, marked-phases t)

store_all-append :
    (ds es : List Deposit) (cache : List (List ℕ))
    → store_all (ds ++ es) cache ≡ store_all es (store_all ds cache)
unfolding store_all
store_all-append [] es cache = refl
store_all-append (d ∷ ds) es cache = store_all-append ds es _

-- Two steps that queue deposits queue them one after the other.
or_stop-Queues :
    (m n : State Service (Option Error)) (ds es t u : List Deposit) (s : Service)
    → Queues ds t s (m s)
    → Queues es u (m s).1 (n (m s).1)
    → Queues (ds ++ es) u s ((m >>= or_stop n) s)
or_stop-Queues m n ds es t u s first second =
    subst (Queues (ds ++ es) u s) (sym (or_stop-first m n s first.succeeds)) (record {
      succeeds = second.succeeds;
      tasks =
          second.tasks
          ∙ ap (λ ts. ts ++ map catch_up_task es) first.tasks
          ∙ append_assoc s.withdrawals _ _
          ∙ ap (λ ts. s.withdrawals ++ ts) (sym (map-append catch_up_task ds es));
      keys = second.keys ∙ ap (store_all es) first.keys ∙ sym (store_all-append ds es s.cache);
      rows = second.rows;
    })

module _ (env : Environment) (config : Config) (live : (n : ℕ) → env.db_fault n ≡ false) where
  early_phases : State Service (Option Error)
  early_phases =
      catchup_with_status env config pending >>= or_stop (catchup_with_status env config processing)

  deposits_phases : State Service (Option Error)
  deposits_phases = early_phases >>= or_stop (catchup_with_status env config submitting_to_core)

  start-Spares : (s : Service) → Spares (deposits_phases s).1 (start env config s)
  unfolding start deposits_phases early_phases
  start-Spares s =
      let epochs = catchup_epochs_with_status env config epoch_pending in
      let first =
        or_stop-Spares deposits_phases epochs s (catchup_epochs-Spares env config epoch_pending) in
      let second =
        or_stop-Spares (deposits_phases >>= or_stop epochs)
          (catchup_epochs_with_status env config epoch_failed) s
          (catchup_epochs-Spares env config epoch_failed) in
      (second.0 ∙ first.0, second.1 ∙ first.1)

  early_phases-Queues :
      (s : Service) (table : List Deposit)
      → s.world.deposits ≡ table
      → HasUniqueKeys table
      → AreNew (early table) s.cache
      → All (HasChild config) (early table)
      → Queues
          (early table)
          (marked (has_status processing) (marked (has_status pending) table))
          s
          (early_phases s)
  unfolding early_phases status_number
  early_phases-Queues s table e keys new children =
      let held = reads pending table in
      let cut = reads processing table in
      let new_split = AreNew-append held cut s.cache new in
      let child_split = All-split (HasChild config) held cut children in
      let one =
        catchup_with_status-Queues env config live pending s table held e refl keys new_split.0
          child_split.0 in
      or_stop-Queues (catchup_with_status env config pending)
        (catchup_with_status env config processing) held cut _ _ s one
        (catchup_with_status-Queues env config live processing _ _ cut one.rows
          (select_all-marked pending processing table refl refl)
          (marked-HasUniqueKeys (has_status pending) table keys)
          (subst (AreNew cut) (sym one.keys) new_split.1) child_split.1)

  deposits_phases-Queues :
      (s : Service) (table : List Deposit)
      → s.world.deposits ≡ table
      → HasUniqueKeys table
      → AreNew (unfinished table) s.cache
      → All (HasChild config) (unfinished table)
      → Queues (unfinished table) (marked was_interrupted table) s (deposits_phases s)
  unfolding deposits_phases status_number
  deposits_phases-Queues s table e keys new children =
      let sent = reads submitting_to_core table in
      let new_split = AreNew-append (early table) sent s.cache new in
      let child_split = All-split (HasChild config) (early table) sent children in
      let both = early_phases-Queues s table e keys new_split.0 child_split.0 in
      subst (λ t. Queues (unfinished table) t s (deposits_phases s)) (marked-phases table)
        (or_stop-Queues early_phases (catchup_with_status env config submitting_to_core)
          (early table) sent _ _ s both
          (catchup_with_status-Queues env config live submitting_to_core _ _ sent both.rows
            (select_all-marked processing submitting_to_core (marked (has_status pending) table)
                refl refl
              ∙ select_all-marked pending submitting_to_core table refl refl)
            (marked-HasUniqueKeys (has_status processing) (marked (has_status pending) table)
              (marked-HasUniqueKeys (has_status pending) table keys))
            (subst (AreNew sent) (sym both.keys) new_split.1) child_split.1))

  -- The start of the catch-upper, with a working database, an empty cache and a table without
  -- duplicate keys, queues one catch-up for each row that is PENDING, then for each that is
  -- PROCESSING, then for each that is SUBMITTING_TO_CORE, in the table's order, and for no other; and
  -- it sets exactly these rows to PENDING. This holds whatever comes of the epochs that it takes up
  -- after them. The chains of these rows have a child client, and their chain ids and hashes hold no
  -- slash.
  pub start_resumes :
      (s : Service)
      → s.cache ≡ []
      → HasUniqueKeys s.world.deposits
      → All IsPlain (unfinished s.world.deposits)
      → All (HasChild config) (unfinished s.world.deposits)
      → ((start env config s).1.withdrawals
          ≡ s.withdrawals ++ map catch_up_task (unfinished s.world.deposits))
        × ((start env config s).1.world.deposits ≡ marked was_interrupted s.world.deposits)
  start_resumes s empty keys plains children =
      let table = s.world.deposits in
      let new =
        subst (AreNew (unfinished table)) (sym empty) (unfinished-AreNew table keys plains) in
      let queued = deposits_phases-Queues s table refl keys new children in
      let spared = start-Spares s in (spared.0 ∙ queued.tasks, spared.1 ∙ queued.rows)
