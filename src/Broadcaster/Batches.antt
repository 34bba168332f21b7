-- ===== src/Broadcaster/Batches.antt =====
-- What a batch of the core submitter does to the pool and to the table.
use mathlib.Core.Option
use relayer_svc.Base.{
  ◌≡◌, refl, sym, ◌∙◌, ap, ◌⊎◌, Bool, false, ◌&&◌, ◌||◌, Option, none, List, [], ◌∷◌, map, arith,
  State, ◌>>=◌,
}
use relayer_svc.Types.{Error}
use relayer_svc.Db.{DepositIdentifier, Deposit, identifier_eq}
use relayer_svc.Env.{Environment, World}
use relayer_svc.Retry.{Runs, stopped, last, again, Retrier}
use relayer_svc.Connector.{get_deposit}
use relayer_svc.Connector.Update.{collect, update_tx_info}
use relayer_svc.Broadcaster.{Config}
use relayer_svc.Broadcaster.Submitter.{Pool, update_tx, is_submitting, flush}

abbrev pub identifiers : List Deposit → List DepositIdentifier
identifiers = map λ d. d.identifier

identifiers-collect :
    (env : Environment) (ds : List Deposit) (w : World)
    → identifiers (collect env ds w).0.0 ≡ identifiers ds
unfolding collect ◌>>=◌
identifiers-collect env [] w = refl
identifiers-collect env (d ∷ ds) w =
    ground (arith, identifiers-collect env ds (get_deposit env d.identifier w).1)

pub identifiers-update_tx :
    (env : Environment) (config : Config) (p : Pool)
    → identifiers (update_tx env config p).1.0 ≡ identifiers p.0
unfolding update_tx update_tx_info ◌>>=◌
identifiers-update_tx env config (ds, w) = ground (arith, identifiers-collect env ds w)

-- Runs of a closure that keeps some view of the state keep it too.
pub Runs-keeps {ℓ} :
    {S : Type 0} {V : Type ℓ} (view : S → V) {f : State S (Option Error)} {s : S}
    {r : Option Error × S}
    → ((x : S) → view (f x).1 ≡ view x)
    → Runs f s r
    → view r.1 ≡ view s
Runs-keeps view keep stopped = refl
Runs-keeps view {s = s} keep (last e) = ap (λ x. view x.1) (sym e) ∙ keep s
Runs-keeps view {s = s} keep (again x e more) =
    Runs-keeps view keep more ∙ ap (λ y. view y.1) (sym e) ∙ keep s

-- Some deposit of the batch waits for the core under this identifier.
abbrev pub is_closed : DepositIdentifier → List Deposit → Bool
is_closed id [] = false
is_closed id (d ∷ ds) = identifier_eq d.identifier id && is_submitting d || is_closed id ds

-- Flushing empties the pool only if the last update of the core succeeded.
pub identifiers-flush :
    (env : Environment) (config : Config) (retrier : Retrier Pool) (p : Pool)
    → ((retrier.do_with_retry (update_tx env config) p).0 ≡ none)
      ⊎ (identifiers (flush env config retrier p).0 ≡ identifiers p.0)
unfolding flush
identifiers-flush env config retrier p = ground (
  arith,
  Runs-keeps {S = Pool} (λ x. identifiers x.0) (identifiers-update_tx env config)
      (retrier.runs (update_tx env config) p),
)
