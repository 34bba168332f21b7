-- ===== src/Broadcaster/Waiting/Effects.antt =====
-- What a catch-up does to the cache and to the waiting tasks, on every branch.
use relayer_svc.Base.{◌≡◌, refl, ◌⊎◌, inl, inr, false, some, ◌∷◌, Option-cases, arith, ◌>>=◌}
use relayer_svc.Types.{Error}
use relayer_svc.Db.{Deposit}
use relayer_svc.Db.Text.{id_string}
use relayer_svc.Env.{Environment}
use relayer_svc.Broadcaster.{Service, Config, catch_up_task, on_world, cached, load, store, spawn}
use relayer_svc.Broadcaster.CatchUp.{catch_up}
use relayer_svc.Broadcaster.Admission.{Effect}

fields-catch_up :
    (env : Environment) (config : Config) (d : Deposit) (s : Service) (e : Error)
    → (catch_up env config d s).0 ≡ some e
    → ((catch_up env config d s).1.withdrawals ≡ s.withdrawals)
      × (((catch_up env config d s).1.cache ≡ s.cache)
          ⊎ ((cached (id_string d.identifier) s.cache ≡ false)
              × ((catch_up env config d s).1.cache ≡ id_string d.identifier ∷ s.cache)))
unfolding catch_up ◌>>=◌ load store on_world spawn
fields-catch_up env config d s e h = (ground arith, ground arith)

pub catch_up-Effect :
    (env : Environment) (config : Config) (d : Deposit) (s : Service)
    → Effect (id_string d.identifier) s (catch_up env config d s).1
unfolding catch_up ◌>>=◌ load store on_world spawn
catch_up-Effect env config d s = elim (Option-cases (catch_up env config d s).0) [
  | inl done ↦ inr (inr (catch_up_task d, refl, ground arith, ground arith, ground arith))
  | inr (e, failed) ↦
      let (tasks, cache) = fields-catch_up env config d s e failed in
      elim cache [
        | inl same ↦ inl (same, tasks)
        | inr (new, stored) ↦ inr (inl (new, stored, tasks))
      ]
]
