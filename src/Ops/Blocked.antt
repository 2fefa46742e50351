-- ===== src/Ops/Blocked.antt =====
-- A job that some test keeps from running, as long as the events spare the test.
use mathlib.Core.Path.{subst}
use pibot.Prelude.{
  ℕ, ◌≡◌, refl, sym, Bool, true, false, Option, none, some, List, [], ◌∷◌, arith, All, Bool-cases,
  Option-cases, ◌⊎◌, inl, inr, if◌then◌else◌,
}
use pibot.Python.Text.{Text, text_eq, one_of}
use pibot.Python.Text.Laws.{text_eq_iff}
use pibot.Python.Result.{Result, ok, err, Error}
use pibot.Python.Dict.{get, put}
use pibot.Python.Dict.Laws.{get-put, get-put_other}
use pibot.Ops.{
  OpsJob, OpsRunner, create_job, change, start_preview, preview_line, end_preview, confirm, new_job,
  valid_kinds, preview, running, set_guard, assert_guards, start_run, run_line, end_run, fail_run,
  cancel,
}
use pibot.Ops.Events.{
  executions, Event, created, preview_started, preview_ended, run_started, run_ended, cancelled,
  preview_logged, run_logged, run_failed, confirmed, guard_set, call, settle, run_all,
}

-- A test of a job's kind, confirmation and guard that keeps it from running.
pub record Blocks (A : Type 0) (w : Text → Bool → Bool → Bool) : Type 0 where
  pub refused :
      (job : OpsJob A)
      → w job.kind job.confirmed job.guard_passed ≡ true
      → (why : Error) × (assert_guards job ≡ err why)

Result-cases : (m : Result (Unit {0})) → ((why : Error) × (m ≡ err why)) ⊎ (m ≡ ok tt)
Result-cases (ok tt) = inr refl
Result-cases (err why) = inl (why, refl)

module _ {A : Type 0} where
  -- A test of a job's kind, confirmation and guard holds of a job, if there is one.
  abbrev pub Holds : (Text → Bool → Bool → Bool) → Option (OpsJob A) → Type 0
  Holds w none = Unit
  Holds w (some job) = w job.kind job.confirmed job.guard_passed ≡ true

  -- What an event must not do to a job, for the test to go on holding of it.
  abbrev pub Spares : (Text → Bool → Bool → Bool) → Text → Event A → Type 0
  Spares w id (created k kind args dry_run) = text_eq k id ≡ true → w kind false false ≡ true
  Spares w id (confirmed k guard) =
      text_eq k id ≡ true
      → (kind : Text) (c g : Bool) → w kind c g ≡ true
      → w kind true (if guard then true else g) ≡ true
  Spares w id (guard_set k passed) =
      text_eq k id ≡ true → (kind : Text) (c g : Bool) → w kind c g ≡ true → w kind c passed ≡ true
  Spares w id _ = Unit

  pub record Blocked (w : Text → Bool → Bool → Bool) (id : Text) (n : ℕ) (r : OpsRunner A)
      : Type 0 where
    pub holds : Holds w (get id r.jobs)
    pub count : executions id r.calls ≡ n

  Holds-put :
      (w : Text → Bool → Bool → Bool) (id k : Text) (job : OpsJob A) (r : OpsRunner A)
      → Holds w (get id r.jobs)
      → (text_eq k id ≡ true → Holds w (some job))
      → Holds w (get id (put k job r.jobs))
  Holds-put w id k job r h f = elim (Bool-cases (text_eq k id)) [
    | inl e ↦ subst (Holds w) (sym (get-put k id job r.jobs e)) (f e)
    | inr e ↦ subst (Holds w) (sym (get-put_other k id job r.jobs e)) h
  ]

  -- What holds of the job under `id` holds of the one that is found under an equal key.
  Holds-found :
      (w : Text → Bool → Bool → Bool) (id k : Text) (job : OpsJob A) (r : OpsRunner A)
      → Holds w (get id r.jobs)
      → get k r.jobs ≡ some job
      → text_eq k id ≡ true
      → Holds w (some job)
  Holds-found w id k job r h e same =
      subst (Holds w) (subst (λ j. get j r.jobs ≡ some job) ((text_eq_iff k id).0 same) e) h

  Blocked-change :
      (w : Text → Bool → Bool → Bool) (id k : Text) (f : OpsJob A → OpsJob A) (n : ℕ)
      (r : OpsRunner A)
      → Blocked w id n r
      → (text_eq k id ≡ true → (job : OpsJob A) → Holds w (some job) → Holds w (some (f job)))
      → Blocked w id n (settle r (change k f r))
  unfolding change
  Blocked-change w id k f n r b keep = elim (Option-cases (get k r.jobs)) [
    | inl e ↦ rw (e, change) b
    | inr (job, e) ↦
        rw (e, change)
          (record {
            holds =
                Holds-put w id k (f job) r b.holds
                  λ same. keep same job (Holds-found w id k job r b.holds e same);
            count = b.count;
          })
  ]

  Blocked-create :
      (w : Text → Bool → Bool → Bool) (id k kind : Text) (args : A) (dry_run : Bool) (n : ℕ)
      (r : OpsRunner A)
      → Blocked w id n r
      → (text_eq k id ≡ true → w kind false false ≡ true)
      → Blocked w id n (settle r (create_job k kind args dry_run r))
  unfolding create_job
  Blocked-create w id k kind args dry_run n r b keep = elim (Bool-cases (one_of kind valid_kinds)) [
    | inl e ↦
        rw (e, create_job)
          (record {
            holds = Holds-put w id k (new_job kind args dry_run) r b.holds keep;
            count = b.count;
          })
    | inr e ↦ rw (e, create_job) b
  ]

  Blocked-preview :
      (w : Text → Bool → Bool → Bool) (id k : Text) (n : ℕ) (r : OpsRunner A)
      → Blocked w id n r
      → Blocked w id n (settle r (start_preview k r))
  unfolding start_preview change executions
  Blocked-preview w id k n r b = elim (Option-cases (get k r.jobs)) [
    | inl e ↦ rw (e, start_preview) b
    | inr (job, e) ↦
        rw (e, start_preview)
          (record {
            holds =
                Holds-put w id k (record job { status = preview; log = [] }) r b.holds
                  λ same. Holds-found w id k job r b.holds e same;
            count = ground (arith, b.count);
          })
  ]

  Blocked-start :
      (w : Text → Bool → Bool → Bool) (blocks : Blocks A w) (id k : Text) (n : ℕ) (r : OpsRunner A)
      → Blocked w id n r
      → Blocked w id n (settle r (start_run k r))
  unfolding start_run executions
  Blocked-start w blocks id k n r b = elim (Option-cases (get k r.jobs)) [
    | inl e ↦ rw (e, start_run) b
    | inr (job, e) ↦ elim (Result-cases (assert_guards job)) [
      | inl (why, refused) ↦ rw (e, start_run, refused) b
      | inr allowed ↦
          let other : text_eq k id ≡ false = elim (Bool-cases (text_eq k id)) [
            | inl same ↦
                let (why, refused) = blocks.refused job (Holds-found w id k job r b.holds e same) in
                cc
            | inr differ ↦ differ
          ] in
          rw (e, start_run, allowed)
            (record {
              holds =
                  subst (Holds w)
                    (sym
                      (get-put_other k id (record job { status = running; log = [] }) r.jobs other))
                    b.holds;
              count = ground (arith, b.count, other);
            })
    ]
  ]

  Blocked-step :
      (w : Text → Bool → Bool → Bool) (blocks : Blocks A w) (id : Text) (n : ℕ) (e : Event A)
      (r : OpsRunner A)
      → Blocked w id n r
      → Spares w id e
      → Blocked w id n (settle r (call e r))
  unfolding call preview_line end_preview confirm set_guard run_line end_run fail_run cancel
  Blocked-step w blocks id n (created k kind args dry_run) r b h =
      Blocked-create w id k kind args dry_run n r b h
  Blocked-step w blocks id n (preview_started k) r b h = Blocked-preview w id k n r b
  Blocked-step w blocks id n (preview_logged k line) r b h =
      Blocked-change w id k _ n r b (λ same j t. t)
  Blocked-step w blocks id n (preview_ended k) r b h = Blocked-change w id k _ n r b (λ same j t. t)
  Blocked-step w blocks id n (confirmed k guard) r b h =
      Blocked-change w id k _ n r b (λ same j t. h same j.kind j.confirmed j.guard_passed t)
  Blocked-step w blocks id n (guard_set k passed) r b h =
      Blocked-change w id k _ n r b (λ same j t. h same j.kind j.confirmed j.guard_passed t)
  Blocked-step w blocks id n (run_started k) r b h = Blocked-start w blocks id k n r b
  Blocked-step w blocks id n (run_logged k line) r b h =
      Blocked-change w id k _ n r b
        (λ same j t. elim (Bool-cases j.cancelled_requested) [ inl e ↦ rw e t | inr e ↦ rw e t ])
  Blocked-step w blocks id n (run_ended k) r b h = Blocked-change w id k _ n r b (λ same j t. t)
  Blocked-step w blocks id n (run_failed k why) r b h =
      Blocked-change w id k _ n r b (λ same j t. t)
  Blocked-step w blocks id n (cancelled k) r b h = Blocked-change w id k _ n r b (λ same j t. t)

  pub Blocked-run_all :
      (w : Text → Bool → Bool → Bool) (blocks : Blocks A w) (id : Text) (n : ℕ)
      (es : List (Event A)) (r : OpsRunner A)
      → Blocked w id n r
      → All (Spares w id) es
      → Blocked w id n (run_all es r)
  unfolding run_all
  Blocked-run_all w blocks id n [] r b h = b
  Blocked-run_all w blocks id n (e ∷ es) r b (h, hs) =
      Blocked-run_all w blocks id n es (settle r (call e r)) (Blocked-step w blocks id n e r b h) hs
