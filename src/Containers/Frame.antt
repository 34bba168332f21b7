-- ===== src/Containers/Frame.antt =====
-- What a task on one deposit leaves alone: every other deposit's row, the other tables, and the
-- uniqueness of primary keys. One rule for each way to build a task.
use relayer_svc.Base.{
  case_option, ◌≡◌, refl, subst, ◌∙◌, Bool, true, false, Option, none, some, State, pure, ◌>>=◌,
  arith, if◌then◌else◌,
}
use relayer_svc.Types.{
  err_failed_to_broadcast, err_already_exists, err_withdrawal_processed, err_already_submitted,
  err_chain_not_supported, err_skipped, err_skipped_finalization, err_db, err_chain, err_core,
  err_not_found, err_parse, err_stopped, err_panic, Error, Result, ok, err, case_result,
  WithdrawalStatus,
}
use relayer_svc.Db.{DepositIdentifier, Deposit, identifier_eq}
use relayer_svc.Env.{Environment, World}
use relayer_svc.Postgres.{exec}
use relayer_svc.Postgres.Deposits.{
  update, set_withdrawal_details, update_status, update_withdrawal_details,
}
use relayer_svc.Postgres.Rows.{
  row, HasUniqueKeys, KeepsKey, row-update, update-HasUniqueKeys, set_status-KeepsKey,
  set_withdrawal_details-KeepsKey,
}
use relayer_svc.Connector.{get_deposit}
use relayer_svc.Containers.{
  check_processed, Outcome, execute_withdrawal, or_default_hash, unless_panic,
}

pub record Frame (id : DepositIdentifier) (w v : World) : Type 0 where
  pub others :
      (j : DepositIdentifier) → identifier_eq id j ≡ false → row j v.deposits ≡ row j w.deposits
  pub keys : HasUniqueKeys w.deposits → HasUniqueKeys v.deposits
  pub epochs : v.epochs ≡ w.epochs
  pub latest_block : v.latest_block ≡ w.latest_block

pub Frame-trans :
    {id : DepositIdentifier} {u v w : World} → Frame id u v → Frame id v w → Frame id u w
Frame-trans f g = record {
  others = λ j e. g.others j e ∙ f.others j e;
  keys = λ h. g.keys (f.keys h);
  epochs = g.epochs ∙ f.epochs;
  latest_block = g.latest_block ∙ f.latest_block;
}

-- The action keeps the frame from wherever it starts.
pub record Frames (id : DepositIdentifier) {A : Type 0} (m : State World A) : Type 0 where
  pub at : (w : World) → Frame id w (m w).1

module _ {id : DepositIdentifier} {A B : Type 0} where
  pub Frames-bind :
      (m : State World B) (f : B → State World A)
      → Frames id m
      → ((w : World) → Frames id (f (m w).0))
      → Frames id (m >>= f)
  unfolding ◌>>=◌
  Frames-bind m f fm ff = record { at = λ w. Frame-trans (fm.at w) ((ff w).at (m w).1) }

  pub Frames-option :
      (o : Option B) (n : State World A) (f : B → State World A)
      → Frames id n
      → ((b : B) → Frames id (f b))
      → Frames id (case_option o n f)
  Frames-option none n f fn ff = fn
  Frames-option (some b) n f fn ff = ff b

module _ {id : DepositIdentifier} {A B : Type 0} where
  pub Frames-result :
      (r : Result B) (f : B → State World A) (g : Error → State World A)
      → ((b : B) → Frames id (f b))
      → ((e : Error) → Frames id (g e))
      → Frames id (case_result r f g)
  Frames-result (ok b) f g ff fg = ff b
  Frames-result (err e) f g ff fg = fg e

module _ {id : DepositIdentifier} {A : Type 0} where
  pub Frames-pure : (a : A) → Frames id (pure a)
  unfolding pure
  Frames-pure a = record {
    at = λ w. record { others = λ j e. refl; keys = λ h. h; epochs = refl; latest_block = refl };
  }

  pub Frames-if :
      (b : Bool) (m n : State World A) → Frames id m → Frames id n → Frames id (if b then m else n)
  Frames-if true m n fm fn = fm
  Frames-if false m n fm fn = fn

update-Frames :
    (env : Environment) {id : DepositIdentifier} (f : Deposit → Deposit)
    → KeepsKey f
    → Frames id (update env id f)
update-Frames env {id} f keep = record {
  at = λ w. record {
    others = λ j e. ground (arith, row-update env id f w keep j);
    keys = update-HasUniqueKeys env id f w keep;
    epochs = unfold update exec in ground arith;
    latest_block = unfold update exec in ground arith;
  };
}

module _ (env : Environment) {id : DepositIdentifier} where
  pub update_status-Frames :
      (j : DepositIdentifier) (status : WithdrawalStatus)
      → j ≡ id
      → Frames id (update_status env j status)
  unfolding update_status
  update_status-Frames j status own =
      subst (λ i. Frames i (update_status env j status)) own
        (update-Frames env _ (set_status-KeepsKey status))

  module _ (d : Deposit) where
    pub update_withdrawal_details-Frames :
        d.identifier ≡ id → Frames id (update_withdrawal_details env d)
    unfolding update_withdrawal_details
    update_withdrawal_details-Frames e =
        subst (λ j. Frames j (update env d.identifier (set_withdrawal_details d))) e
          (update-Frames env _ (set_withdrawal_details-KeepsKey d))

    pub check_processed-Frames : Frames id (check_processed env d)
    unfolding check_processed
    check_processed-Frames = record {
      at = λ w. record { others = λ j e. refl; keys = λ h. h; epochs = refl; latest_block = refl };
    }

    pub execute_withdrawal-Frames : Frames id (execute_withdrawal env d)
    unfolding execute_withdrawal ◌>>=◌
    execute_withdrawal-Frames = record {
      at = λ w. record {
        others = λ j e. ground arith;
        keys = λ h. ground (arith, h);
        epochs = ground arith;
        latest_block = ground arith;
      };
    }

  pub get_deposit-Frames : (j : DepositIdentifier) → Frames id (get_deposit env j)
  unfolding get_deposit
  get_deposit-Frames j = record {
    at = λ w. record { others = λ i e. refl; keys = λ h. h; epochs = refl; latest_block = refl };
  }

pub unless_panic-Frames :
    {id : DepositIdentifier} (f : Error → State World Outcome)
    → ((e : Error) → Frames id (f e))
    → (e : Error) → Frames id (unless_panic f e)
unfolding unless_panic
unless_panic-Frames f h err_panic = Frames-pure _
unless_panic-Frames f h err_failed_to_broadcast = h err_failed_to_broadcast
unless_panic-Frames f h err_already_exists = h err_already_exists
unless_panic-Frames f h err_withdrawal_processed = h err_withdrawal_processed
unless_panic-Frames f h err_already_submitted = h err_already_submitted
unless_panic-Frames f h err_chain_not_supported = h err_chain_not_supported
unless_panic-Frames f h err_skipped = h err_skipped
unless_panic-Frames f h err_skipped_finalization = h err_skipped_finalization
unless_panic-Frames f h err_db = h err_db
unless_panic-Frames f h err_chain = h err_chain
unless_panic-Frames f h err_core = h err_core
unless_panic-Frames f h err_not_found = h err_not_found
unless_panic-Frames f h err_parse = h err_parse
unless_panic-Frames f h err_stopped = h err_stopped

-- The deposit that a task hands on keeps its identifier.
pub execute_withdrawal-identifier :
    (env : Environment) (d : Deposit) (w : World)
    → (execute_withdrawal env d w).0.0.identifier ≡ d.identifier
unfolding execute_withdrawal ◌>>=◌
execute_withdrawal-identifier env d w = ground arith

pub or_default_hash-KeepsKey : KeepsKey or_default_hash
unfolding or_default_hash
or_default_hash-KeepsKey d = ground arith

pub ruleset frame_rules = (
  Frames-bind, Frames-option, Frames-pure, Frames-if, update_status-Frames,
  update_withdrawal_details-Frames, check_processed-Frames, execute_withdrawal-Frames,
  get_deposit-Frames,
)
