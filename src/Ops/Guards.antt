-- ===== src/Ops/Guards.antt =====
-- No job runs for real without what its guards ask for, in whatever order the methods are called.
use mathlib.Core.Path.{subst}
use pibot.Prelude.{
  suc, ◌≡◌, refl, sym, ap, ◌∙◌, Bool, true, false, ◌&&◌, ◌||◌, not, some, List, [], ◌∷◌, arith, All,
  All-imp, Bool-cases, inl, inr,
}
use pibot.Python.Text.{Text, text_eq, one_of}
use pibot.Python.Text.Laws.{text_eq_refl}
use pibot.Python.Result.{ok, permission_error}
use pibot.Python.Dict.{get, put}
use pibot.Python.Dict.Laws.{get-put}
use pibot.Ops.{
  OpsJob, OpsRunner, new_runner, destructive, create_job, change, confirm, new_job, valid_kinds,
  assert_guards, start_run,
}
use pibot.Ops.Events.{
  executions, Event, created, run_started, confirmed, guard_set, call, settle, run_all,
}
use pibot.Ops.Blocked.{Spares, Blocks, Blocked-run_all}

unfoldable unconfirmed : Text → Bool → Bool → Bool
unfolding one_of
unconfirmed kind c g = one_of kind destructive && not c

unfoldable unguarded : Text → Bool → Bool → Bool
unfolding one_of
unguarded kind c g = one_of kind destructive && not g

module _ {A : Type 0} where
  -- The event does not confirm the job, and creates it of a destructive kind if at all.
  unfoldable pub no_confirm : Text → Event A → Bool
  unfolding one_of
  no_confirm id (created k kind args dry_run) = not (text_eq k id) || one_of kind destructive
  no_confirm id (confirmed k guard) = not (text_eq k id)
  no_confirm id _ = true

  -- The event does not pass the job's guard, and creates it of a destructive kind if at all.
  unfoldable pub no_grant : Text → Event A → Bool
  unfolding one_of
  no_grant id (created k kind args dry_run) = not (text_eq k id) || one_of kind destructive
  no_grant id (confirmed k guard) = not (text_eq k id) || not guard
  no_grant id (guard_set k passed) = not (text_eq k id) || not passed
  no_grant id _ = true

  Blocks-unconfirmed : Blocks A unconfirmed
  unfolding assert_guards unconfirmed
  Blocks-unconfirmed = record {
    refused = λ job h.
        let c : job.confirmed ≡ false = ground (arith, h) in
        elim (Bool-cases (one_of job.kind destructive)) [
          | inl e ↦ (permission_error, rw (e, c, assert_guards) refl)
          | inr e ↦ (permission_error, rw (e, c, assert_guards) refl)
        ];
  }

  Blocks-unguarded : Blocks A unguarded
  unfolding assert_guards unguarded
  Blocks-unguarded = record {
    refused = λ job h.
        let e : one_of job.kind destructive ≡ true = ground (arith, h) in
        let g : job.guard_passed ≡ false = ground (arith, h) in
        elim (Bool-cases job.confirmed) [
          | inl c ↦ (permission_error, rw (e, c, g, assert_guards) refl)
          | inr c ↦ (permission_error, rw (e, c, assert_guards) refl)
        ];
  }

  Spares-unconfirmed : (id : Text) (e : Event A) → no_confirm id e ≡ true → Spares unconfirmed id e
  unfolding no_confirm unconfirmed
  Spares-unconfirmed id (created k kind args dry_run) h = λ same. ground (arith, same, h)
  Spares-unconfirmed id (confirmed k guard) h = λ same. absurd (ground (arith, same, h))
  Spares-unconfirmed id (guard_set k passed) h = λ same kind c g t. t
  Spares-unconfirmed id _ h = tt

  Spares-unguarded : (id : Text) (e : Event A) → no_grant id e ≡ true → Spares unguarded id e
  unfolding no_grant unguarded
  Spares-unguarded id (created k kind args dry_run) h = λ same. ground (arith, same, h)
  Spares-unguarded id (confirmed k guard) h = λ same kind c g t. ground (arith, same, h, t)
  Spares-unguarded id (guard_set k passed) h = λ same kind c g t. ground (arith, same, h, t)
  Spares-unguarded id _ h = tt

  -- Whatever the methods are called with and in whatever order, a job of a destructive kind that
  -- `confirm` is never called for is never executed, other than as a dry run.
  pub unconfirmed_never_runs :
      (id : Text) (es : List (Event A))
      → All (λ e. no_confirm id e ≡ true) es
      → executions id (run_all es new_runner).calls ≡ 0
  unfolding executions get
  unconfirmed_never_runs id es h =
      (Blocked-run_all unconfirmed Blocks-unconfirmed id 0 es new_runner
        (record { holds = tt; count = refl }) (All-imp es (Spares-unconfirmed id) h)).count

  -- A job of a destructive kind, whose guard is never passed by `confirm` or `set_guard`, is never
  -- executed, other than as a dry run.
  pub unguarded_never_runs :
      (id : Text) (es : List (Event A))
      → All (λ e. no_grant id e ≡ true) es
      → executions id (run_all es new_runner).calls ≡ 0
  unfolding executions get
  unguarded_never_runs id es h =
      (Blocked-run_all unguarded Blocks-unguarded id 0 es new_runner
        (record { holds = tt; count = refl }) (All-imp es (Spares-unguarded id) h)).count

  assert_granted :
      (job : OpsJob A) → job.confirmed ≡ true → job.guard_passed ≡ true → assert_guards job ≡ ok tt
  unfolding assert_guards
  assert_granted job c g = elim (Bool-cases (one_of job.kind destructive)) [
    | inl e ↦ rw (e, c, g, assert_guards) refl
    | inr e ↦ rw (e, c, assert_guards) refl
  ]

  start_granted :
      (id : Text) (job : OpsJob A) (r : OpsRunner A)
      → get id r.jobs ≡ some job
      → job.confirmed ≡ true
      → job.guard_passed ≡ true
      → executions id (settle r (start_run id r)).calls ≡ suc (executions id r.calls)
  unfolding start_run executions
  start_granted id job r e c g =
      rw (e, assert_granted job c g, start_run) (ground (arith, text_eq_refl id))

  -- A job of a valid kind that is created, confirmed with its guard passed, and then run, with
  -- nothing between, is executed once more, whatever the runner did before.
  pub granted_runs :
      (id kind : Text) (args : A) (dry_run : Bool) (r : OpsRunner A)
      → one_of kind valid_kinds ≡ true
      → executions id
          (run_all (created id kind args dry_run ∷ confirmed id true ∷ run_started id ∷ []) r).calls
        ≡ suc (executions id r.calls)
  unfolding run_all call create_job confirm change
  granted_runs id kind args dry_run r h =
      let job : OpsJob A = new_job kind args dry_run in
      let granted : OpsJob A = record job { confirmed = true; guard_passed = true } in
      let s : OpsRunner A = record r { jobs = put id job r.jobs } in
      let t : OpsRunner A = record r { jobs = put id granted s.jobs } in
      let a : settle r (create_job id kind args dry_run r) ≡ s = rw (h, create_job) refl in
      let b : settle s (confirm id true s) ≡ t =
        rw (get-put id id job r.jobs (text_eq_refl id), confirm) refl in
      subst (λ x. executions id (settle x (start_run id x)).calls ≡ suc (executions id r.calls))
        (sym (ap (λ y. settle y (confirm id true y)) a ∙ b))
        (start_granted id granted t (get-put id id granted s.jobs (text_eq_refl id)) refl refl)
