-- ===== src/Containers/Confirmed.antt =====
-- What the chain said before a container returned a deposit without an error.
use relayer_svc.Base.{
  ℕ, ◌+◌, ◌≡◌, refl, ap, subst, State, ◌⊎◌, inl, inr, Bool, true, false, Option, none, some, arith,
  ◌>>=◌, pure, case_option, if◌then◌else◌,
}
use relayer_svc.Types.{
  Error, WithdrawalStatus, unspecified, pending, processing, submitting_to_core, processed, failed,
  already_withdrawn,
}
use relayer_svc.Db.{Deposit}
use relayer_svc.Env.{Environment, World, Withdrawal}
use relayer_svc.Postgres.{exec}
use relayer_svc.Postgres.Deposits.{set_status, update, update_status, update_withdrawal_details}
use relayer_svc.Containers.{Outcome, check_processed, execute_withdrawal}
use relayer_svc.Containers.Broadcast
use relayer_svc.Containers.Catchup
use relayer_svc.Containers.Catchup.Safety.{is_unsent}

-- The withdrawal succeeded, and the deposit carries what the chain answered.
abbrev pub Carries : Withdrawal → Deposit → Type 0
Carries answer d' =
    (answer.fails ≡ false)
    × (d'.withdrawal_tx_hash ≡ some answer.tx_hash)
    × (d'.withdrawal_chain_block ≡ answer.block)
    × (d'.operator ≡ answer.operator)

-- The deposit is to be reported, with what the chain answered in call n.
abbrev pub Submits : Environment → Deposit → ℕ → Deposit → Type 0
Submits env d n d' =
    (d'.withdrawal_status ≡ submitting_to_core)
    × Carries (env.withdraw n (set_status processing d)) d'

-- No error comes back with no deposit, and one that comes back without an error has the property.
abbrev pub Completes : (Deposit → Type 0) → Outcome → Type 0
Completes P (none, none) = ⊥
Completes P (some d, none) = P d
Completes P (d, some e) = Unit

process-Submits :
    (env : Environment) (d : Deposit) (w : World)
    → Completes (Submits env d w.calls) (Broadcast.process env (set_status processing d) w).0
unfolding Broadcast.process Broadcast.report_failure Broadcast.report_unstored Broadcast.submit
    Broadcast.store_details set_status execute_withdrawal ◌>>=◌ exec update update_status
    update_withdrawal_details
process-Submits env d w = ground arith

withdraw_again-Submits :
    (env : Environment) (d : Deposit) (w : World)
    → Completes (Submits env d w.calls) (Catchup.withdraw_again env (set_status processing d) w).0
unfolding Catchup.withdraw_again Broadcast.report_failure Broadcast.report_unstored Catchup.submit
    Catchup.store_details set_status execute_withdrawal ◌>>=◌ exec update update_status
    update_withdrawal_details
withdraw_again-Submits env d w = ground arith

-- What a deposit that the broadcast container returns without an error went through: the chain had its
-- withdrawal, or sent it now.
abbrev pub Relays : Environment → Deposit → World → Deposit → Type 0
Relays env d w d' =
    ((env.is_processed w.calls d ≡ some true) × (d'.withdrawal_status ≡ already_withdrawn))
    ⊎ ((env.is_processed w.calls d ≡ some false) × Submits env d (w.calls + 1 + 1) d')

pub Completes-map :
    (P Q : Deposit → Type 0)
    → ((d : Deposit) → P d → Q d)
    → (o : Outcome) → Completes P o
    → Completes Q o
Completes-map P Q f (none, none) h = h
Completes-map P Q f (some d, none) h = f d h
Completes-map P Q f (none, some e) h = h
Completes-map P Q f (some d, some e) h = h

calls-update_status :
    (env : Environment) (status : WithdrawalStatus) (d : Deposit) (w : World)
    → (update_status env d.identifier status w).1.calls ≡ w.calls + 1
unfolding exec update update_status
calls-update_status env status d w = ground arith

-- The row is marked first; where that fails, the error comes back.
module _ (env : Environment) (d : Deposit) where
  marked-Completes :
      (Q : World → Deposit → Type 0) (next : State World Outcome)
      → ((w : World) → Completes (Q w) (next w).0)
      → (e : Option Error) (w : World)
      → Completes (Q w) (case_option e next (λ x. pure (none, some x)) w).0
  unfolding pure
  marked-Completes Q next h none w = h w
  marked-Completes Q next h (some x) w = tt

  start-Submits : (w : World) → Completes (Submits env d (w.calls + 1)) (Broadcast.start env d w).0
  unfolding Broadcast.start ◌>>=◌
  start-Submits w =
      subst (λ n. Completes (Submits env d n) (Broadcast.start env d w).0)
        (calls-update_status env processing d w)
        (marked-Completes (λ w'. Submits env d w'.calls)
          (Broadcast.process env (set_status processing d)) (process-Submits env d)
          (update_status env d.identifier processing w).0
          (update_status env d.identifier processing w).1)

  pub broadcast-Relays : (w : World) → Completes (Relays env d w) (Broadcast.run env d w).0
  unfolding Broadcast.run ◌>>=◌ check_processed
  broadcast-Relays w = go (env.is_processed w.calls d) refl
    where
      go :
          (answer : Option Bool)
          → env.is_processed w.calls d ≡ answer
          → Completes
              (Relays env d w)
              (case_option answer
                (Broadcast.reject env d)
                (λ processed.
                  if processed then Broadcast.report_withdrawn env d else Broadcast.start env d)
                (record w { calls = w.calls + 1 })).0
      go none e = unfold Broadcast.reject ◌>>=◌ in tt
      go (some true) e = unfold Broadcast.report_withdrawn ◌>>=◌ set_status in inl (e, refl)
      go (some false) e =
          Completes-map _ (Relays env d w) (λ d' p. inr (e, p)) _
            (start-Submits (record w { calls = w.calls + 1 }))

-- What a deposit that the catch-up container returns without an error went through: the chain sent its
-- withdrawal now, or it came back as it was read.
abbrev pub Resumes : Environment → Deposit → World → Deposit → Type 0
Resumes env d w d' =
    ((is_unsent d.withdrawal_status ≡ true)
      × (env.is_processed (w.calls + 1) (set_status processing d) ≡ some false)
      × Submits env d (w.calls + 1 + 1) d')
    ⊎ ((is_unsent d.withdrawal_status ≡ false) × (d' ≡ d))

abbrev Reopens : Environment → Deposit → ℕ → Deposit → Type 0
Reopens env d n d' =
    (env.is_processed n (set_status processing d) ≡ some false) × Submits env d (n + 1) d'

module _ (env : Environment) (d : Deposit) where
  check-Reopens :
      (w : World)
      → Completes
          (Reopens env d w.calls)
          (Catchup.check_and_withdraw env (set_status processing d) w).0
  unfolding Catchup.check_and_withdraw ◌>>=◌ check_processed
  check-Reopens w = go (env.is_processed w.calls (set_status processing d)) refl
    where
      go :
          (answer : Option Bool)
          → env.is_processed w.calls (set_status processing d) ≡ answer
          → Completes
              (Reopens env d w.calls)
              (case_option answer
                (Broadcast.reject env (set_status processing d))
                (λ done.
                  if done
                  then Catchup.skip_processed env (set_status processing d)
                  else Catchup.withdraw_again env (set_status processing d))
                (record w { calls = w.calls + 1 })).0
      go none e = unfold Broadcast.reject ◌>>=◌ in tt
      go (some true) e = unfold Catchup.skip_processed ◌>>=◌ in tt
      go (some false) e =
          Completes-map _ (Reopens env d w.calls) (λ d' p. (e, p)) _
            (withdraw_again-Submits env d (record w { calls = w.calls + 1 }))

  process_withdraw-Reopens :
      (w : World) → Completes (Reopens env d (w.calls + 1)) (Catchup.process_withdraw env d w).0
  unfolding Catchup.process_withdraw ◌>>=◌
  process_withdraw-Reopens w =
      subst (λ n. Completes (Reopens env d n) (Catchup.process_withdraw env d w).0)
        (calls-update_status env processing d w)
        (marked-Completes env d (λ w'. Reopens env d w'.calls)
          (Catchup.check_and_withdraw env (set_status processing d)) check-Reopens
          (update_status env d.identifier processing w).0
          (update_status env d.identifier processing w).1)

  resume_submission-same :
      (w : World) → Completes (λ d'. d' ≡ d) (Catchup.resume_submission env d w).0
  unfolding Catchup.resume_submission Catchup.close_submitted ◌>>=◌
  resume_submission-same w = ground arith

  resume-Resumes :
      (status : WithdrawalStatus)
      → d.withdrawal_status ≡ status
      → (w : World) → Completes (Resumes env d w) (Catchup.resume status env d w).0
  unfolding Catchup.resume pure
  resume-Resumes processing e w =
      Completes-map _ (Resumes env d w) (λ d' p. inl (ap is_unsent e, p.0, p.1)) _
        (process_withdraw-Reopens w)
  resume-Resumes pending e w =
      Completes-map _ (Resumes env d w) (λ d' p. inl (ap is_unsent e, p.0, p.1)) _
        (process_withdraw-Reopens w)
  resume-Resumes submitting_to_core e w =
      Completes-map _ (Resumes env d w) (λ d' p. inr (ap is_unsent e, p)) _
        (resume_submission-same w)
  resume-Resumes unspecified e w = inr (ap is_unsent e, refl)
  resume-Resumes processed e w = inr (ap is_unsent e, refl)
  resume-Resumes failed e w = inr (ap is_unsent e, refl)
  resume-Resumes already_withdrawn e w = inr (ap is_unsent e, refl)

  pub catchup-Resumes : (w : World) → Completes (Resumes env d w) (Catchup.run env d w).0
  unfolding Catchup.run
  catchup-Resumes w = resume-Resumes d.withdrawal_status refl w
