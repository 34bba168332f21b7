-- ===== src/Broadcaster/Resumption/Phases.antt =====
-- One phase of `CatchUpper.Start`: what it queues, and what it leaves in the table.
use relayer_svc.Base.{
  ℕ, ◌+◌, ◌≡◌, refl, ap, sym, subst, ◌∙◌, false, Option, none, List, [], ◌∷◌, ◌++◌, map, All, arith,
  ◌>>=◌, State, pure,
}
use mathlib.Core.List.{append-nil, append_assoc}
use relayer_svc.Types.{
  Error, WithdrawalStatus, pending, processing, submitting_to_core, EpochStatus,
}
use relayer_svc.Db.{Deposit, Epoch}
use relayer_svc.Db.Text.{id_string}
use relayer_svc.Env.{Environment}
use relayer_svc.Postgres.{exec, query, select_all}
use relayer_svc.Postgres.Deposits.{has_status, get_with_status, update, update_status}
use relayer_svc.Postgres.Rows.{HasUniqueKeys}
use relayer_svc.Postgres.Signatures
use relayer_svc.Broadcaster.Epochs.{catch_up_epoch, spawn_epoch}
use relayer_svc.Broadcaster.Resumption.Marks.{mark, mark_all, marked, mark_all-select_all}
use relayer_svc.Broadcaster.{
  Service, Config, catch_up_task, on_world, cached, load, store, pick_child, spawn,
}
use relayer_svc.Broadcaster.CatchUp.{
  catch_up, catch_up_all, catchup_with_status, go_on, catch_up_epochs, catchup_epochs_with_status,
  or_stop,
}

-- The rows that a status selects.
abbrev pub reads : WithdrawalStatus → List Deposit → List Deposit
reads status = select_all (has_status status)

abbrev pub early : List Deposit → List Deposit
early t = reads pending t ++ reads processing t

-- The rows that a restart takes up, in its order.
abbrev pub unfinished : List Deposit → List Deposit
unfinished t = early t ++ reads submitting_to_core t

unfoldable pub store_all : List Deposit → List (List ℕ) → List (List ℕ)
store_all [] cache = cache
store_all (d ∷ ds) cache = store_all ds (id_string d.identifier ∷ cache)

-- No two of the deposits have the same key, and none has a key of the cache.
abbrev pub AreNew : List Deposit → List (List ℕ) → Type 0
AreNew [] cache = Unit
AreNew (d ∷ ds) cache =
    (cached (id_string d.identifier) cache ≡ false) × AreNew ds (id_string d.identifier ∷ cache)

-- The deposit's withdrawal chain has a child client.
abbrev pub HasChild : Config → Deposit → Type 0
HasChild config d = pick_child config d.withdrawal_chain_id ≡ none

-- The deposits were queued in their order, and the table is as given.
pub record Queues (ds t : List Deposit) (s : Service) (r : Option Error × Service) : Type 0 where
  pub succeeds : r.0 ≡ none
  pub tasks : r.1.withdrawals ≡ s.withdrawals ++ map catch_up_task ds
  pub keys : r.1.cache ≡ store_all ds s.cache
  pub rows : r.1.world.deposits ≡ t

-- A statement on the database was counted.
counted : Service → Service
counted s = record s { world = record s.world { calls = s.world.calls + 1 } }

module _ (env : Environment) (config : Config) (live : (n : ℕ) → env.db_fault n ≡ false) where
  catch_up-Queues :
      (d : Deposit) (s : Service)
      → cached (id_string d.identifier) s.cache ≡ false
      → HasChild config d
      → Queues (d ∷ []) (mark d.identifier s.world.deposits) s (catch_up env config d s)
  unfolding catch_up ◌>>=◌ load store on_world spawn update_status update exec mark_all store_all
      pure
  catch_up-Queues d s new child = record {
    succeeds = ground (arith, live s.world.calls);
    tasks = ground (arith, live s.world.calls);
    keys = ground (arith, live s.world.calls);
    rows = ground (arith, live s.world.calls);
  }

  catch_up_all-first :
      (d : Deposit) (ds : List Deposit) (s : Service)
      → Queues (d ∷ []) (mark d.identifier s.world.deposits) s (catch_up env config d s)
      → catch_up_all env config (d ∷ ds) s ≡ catch_up_all env config ds (catch_up env config d s).1
  unfolding ◌>>=◌ catch_up_all go_on
  catch_up_all-first d ds s queued =
      ap (λ e. go_on (catch_up_all env config ds) e (catch_up env config d s).1) queued.succeeds

  catch_up_all-Queues :
      (ds : List Deposit) (s : Service)
      → AreNew ds s.cache
      → All (HasChild config) ds
      → Queues ds (mark_all ds s.world.deposits) s (catch_up_all env config ds s)
  unfolding mark_all store_all pure catch_up_all
  catch_up_all-Queues [] s new children = record {
    succeeds = refl;
    tasks = sym (append-nil _);
    keys = refl;
    rows = refl;
  }
  catch_up_all-Queues (d ∷ ds) s new children =
      let one = catch_up-Queues d s new.0 children.0 in
      let rest =
        catch_up_all-Queues ds (catch_up env config d s).1 (subst (AreNew ds) (sym one.keys) new.1)
          children.1 in
      subst (Queues (d ∷ ds) (mark_all (d ∷ ds) s.world.deposits) s)
        (sym (catch_up_all-first d ds s one))
        (record {
          succeeds = rest.succeeds;
          tasks =
              rest.tasks
              ∙ ap (λ ts. ts ++ map catch_up_task ds) one.tasks
              ∙ append_assoc s.withdrawals _ _;
          keys = rest.keys ∙ ap (store_all ds) one.keys;
          rows = rest.rows ∙ ap (mark_all ds) one.rows;
        })

  catchup_with_status-reads :
      (status : WithdrawalStatus) (s : Service)
      → catchup_with_status env config status s
        ≡ catch_up_all env config (reads status s.world.deposits) (counted s)
  unfolding ◌>>=◌ catchup_with_status on_world get_with_status query counted
  catchup_with_status-reads status s = rw (live s.world.calls) refl

  pub catchup_with_status-Queues :
      (status : WithdrawalStatus) (s : Service) (t ds : List Deposit)
      → s.world.deposits ≡ t
      → reads status t ≡ ds
      → HasUniqueKeys t
      → AreNew ds s.cache
      → All (HasChild config) ds
      → Queues ds (marked (has_status status) t) s (catchup_with_status env config status s)
  unfolding counted
  catchup_with_status-Queues status s t ds table read keys new children =
      let queued = catch_up_all-Queues ds (counted s) new children in
      subst (Queues ds (marked (has_status status) t) s)
        (sym (
          catchup_with_status-reads status s
          ∙ ap (λ rs. catch_up_all env config rs (counted s)) (ap (reads status) table ∙ read)))
        (record {
          succeeds = queued.succeeds;
          tasks = queued.tasks;
          keys = queued.keys;
          rows =
              queued.rows
              ∙ ap (mark_all ds) table
              ∙ ap (λ rs. mark_all rs t) (sym read)
              ∙ mark_all-select_all (has_status status) t keys;
        })

-- The waiting deposits and the table of deposits are as they were.
abbrev pub Spares : Service → Option Error × Service → Type 0
Spares s r = (r.1.withdrawals ≡ s.withdrawals) × (r.1.world.deposits ≡ s.world.deposits)

catch_up_epoch-Spares :
    (config : Config) (e : Epoch) (s : Service) → Spares s (catch_up_epoch config e s)
unfolding catch_up_epoch spawn_epoch pure
catch_up_epoch-Spares config e s = ground arith

catch_up_epochs-Spares :
    (config : Config) (es : List Epoch) (s : Service) → Spares s (catch_up_epochs config es s)
unfolding catch_up_epochs go_on pure ◌>>=◌
catch_up_epochs-Spares config [] s = (refl, refl)
catch_up_epochs-Spares config (e ∷ es) s = ground (
  arith,
  catch_up_epoch-Spares config e s,
  catch_up_epochs-Spares config es (catch_up_epoch config e s).1,
)

pub catchup_epochs-Spares :
    (env : Environment) (config : Config) (status : EpochStatus) (s : Service)
    → Spares s (catchup_epochs_with_status env config status s)
unfolding catchup_epochs_with_status on_world Signatures.get_with_status query pure ◌>>=◌ counted
catchup_epochs-Spares env config status s = ground (
  arith,
  catch_up_epochs-Spares config
      (select_all (λ e. Signatures.epoch_status_eq e.status status) s.world.epochs) (counted s),
)

-- A later step runs where the step before it succeeded.
pub or_stop-first :
    (m n : State Service (Option Error)) (s : Service)
    → (m s).0 ≡ none
    → (m >>= or_stop n) s ≡ n (m s).1
unfolding or_stop ◌>>=◌
or_stop-first m n s e = ap (λ x. or_stop n x (m s).1) e

pub or_stop-Spares :
    (m n : State Service (Option Error)) (s : Service)
    → ((s' : Service) → Spares s' (n s'))
    → Spares (m s).1 ((m >>= or_stop n) s)
unfolding or_stop ◌>>=◌ pure
or_stop-Spares m n s spares = ground (arith, spares (m s).1)

pub AreNew-append :
    (ds es : List Deposit) (cache : List (List ℕ))
    → AreNew (ds ++ es) cache
    → AreNew ds cache × AreNew es (store_all ds cache)
unfolding store_all
AreNew-append [] es cache h = (tt, h)
AreNew-append (d ∷ ds) es cache h =
    let rest = AreNew-append ds es (id_string d.identifier ∷ cache) h.1 in ((h.0, rest.0), rest.1)

pub All-split :
    {A : Type 0} (P : A → Type 0) (xs ys : List A) → All P (xs ++ ys) → All P xs × All P ys
All-split P [] ys h = (tt, h)
All-split P (x ∷ xs) ys h = let rest = All-split P xs ys h.1 in ((h.0, rest.0), rest.1)
