-- ===== src/Ops.antt =====
-- pibot/mc/ops.py: the jobs that flash, clone and restore, and the guards before they run. The
-- runner awaits the lines of an executor, and between two of them any other method may be called,
-- so each method is cut into the steps between its awaits. The executor's lines come from outside.
pub mod Events
pub mod Blocked
pub mod Guards
use pibot.Prelude.{
  Bool, true, false, ◌&&◌, ◌||◌, not, Option, none, some, List, [], ◌∷◌, ◌++◌, if◌then◌else◌,
}
use pibot.Python.Text.{Text, codes, one_of}
use pibot.Python.Result.{
  Result, ok, err, key_error, value_error, permission_error, or_raise, require, ◌>>=◌, ◌>>◌,
}
use pibot.Python.Dict.{Dict, get, put}

abbrev pub destructive : List Text
destructive = codes "flash" ∷ codes "clone" ∷ codes "restore" ∷ codes "eeprom" ∷ []

abbrev pub valid_kinds : List Text
valid_kinds =
    codes "flash"
    ∷ codes "clone"
    ∷ codes "restore"
    ∷ codes "eeprom"
    ∷ codes "firmware"
    ∷ codes "deploy"
    ∷ []

pub data Status : Type 0 where
  queued preview awaiting_confirm running done error cancelled : Status

abbrev pub is_running : Status → Bool
is_running running = true
is_running _ = false

-- `A` holds the arguments of a job. `progress` is 0.0 throughout, and left out.
pub record OpsJob (A : Type 0) : Type 0 where
  pub kind : Text
  pub args : A
  pub dry_run : Bool
  pub confirmed : Bool
  pub guard_passed : Bool
  pub status : Status
  pub log : List Text
  pub cancelled_requested : Bool

-- The jobs, and the calls of the executor so far, the last one first: the job's id and dry_run.
pub record OpsRunner (A : Type 0) : Type 0 where
  pub jobs : Dict (OpsJob A)
  pub calls : List (Text × Bool)

module _ {A : Type 0} where
  abbrev pub new_runner : OpsRunner A
  new_runner = record { jobs = []; calls = [] }

  -- OpsJob(id, kind, args, dry_run)
  abbrev pub new_job : Text → A → Bool → OpsJob A
  new_job kind args dry_run = record {
    kind = kind;
    args = args;
    dry_run = dry_run;
    confirmed = false;
    guard_passed = false;
    status = queued;
    log = [];
    cancelled_requested = false;
  }

  abbrev pub append_log : Text → OpsJob A → OpsJob A
  append_log line job = record job { log = job.log ++ line ∷ [] }

  -- `create_job`, with the id that uuid4 made
  unfoldable pub create_job : Text → Text → A → Bool → OpsRunner A → Result (OpsRunner A)
  unfolding one_of put
  create_job id kind args dry_run r =
      if not (one_of kind valid_kinds)
      then err value_error
      else ok (record r { jobs = put id (new_job kind args dry_run) r.jobs })

  -- A change of the job that `_get` finds.
  unfoldable pub change : Text → (OpsJob A → OpsJob A) → OpsRunner A → Result (OpsRunner A)
  unfolding get put
  change id f r = do
    job ← or_raise (get id r.jobs) key_error
    ok (record r { jobs = put id (f job) r.jobs })

  -- self._exec_fn(job.kind, job.args, dry_run=…)
  abbrev pub call_exec : Text → Bool → OpsRunner A → OpsRunner A
  call_exec id dry_run r = record r { calls = (id, dry_run) ∷ r.calls }

  -- `preview` up to its first line, for each line, and after the last one
  unfoldable pub start_preview : Text → OpsRunner A → Result (OpsRunner A)
  unfolding change
  start_preview id r = do
    r' ← change id (λ job. record job { status = preview; log = [] }) r
    ok (call_exec id true r')

  unfoldable pub end_preview : Text → OpsRunner A → Result (OpsRunner A)
  unfolding change
  end_preview id = change id λ job. record job { status = awaiting_confirm }

  unfoldable pub confirm : Text → Bool → OpsRunner A → Result (OpsRunner A)
  unfolding change
  confirm id guard = change id λ job. record job {
    confirmed = true;
    guard_passed = if guard then true else job.guard_passed;
  }

  unfoldable pub set_guard : Text → Bool → OpsRunner A → Result (OpsRunner A)
  unfolding change
  set_guard id passed = change id λ job. record job { guard_passed = passed }

  -- `_assert_guards`
  unfoldable pub assert_guards : OpsJob A → Result (Unit {0})
  unfolding one_of
  assert_guards job =
      if one_of job.kind destructive
      then (do require job.confirmed permission_error; require job.guard_passed permission_error)
      else require job.confirmed permission_error

  -- `run` up to its first line
  unfoldable pub start_run : Text → OpsRunner A → Result (OpsRunner A)
  unfolding assert_guards get put
  start_run id r = do
    job ← or_raise (get id r.jobs) key_error
    assert_guards job
    ok (
        call_exec id false
          (record r { jobs = put id (record job { status = running; log = [] }) r.jobs }))

  -- `run` for a line, after the last one, and when the executor raises
  unfoldable pub run_line : Text → Text → OpsRunner A → Result (OpsRunner A)
  unfolding change
  run_line id line = change id λ job.
      if job.cancelled_requested then record job { status = cancelled } else append_log line job

  unfoldable pub end_run : Text → OpsRunner A → Result (OpsRunner A)
  unfolding change
  end_run id = change id λ job. record job { status = done }

  unfoldable pub fail_run : Text → Text → OpsRunner A → Result (OpsRunner A)
  unfolding change
  fail_run id why =
      change id λ job. record job { log = job.log ++ (codes "error: " ++ why) ∷ []; status = error }

  unfoldable pub cancel : Text → OpsRunner A → Result (OpsRunner A)
  unfolding change
  cancel id = change id λ job. record job {
    cancelled_requested = true;
    status = if is_running job.status then cancelled else job.status;
  }

  unfoldable pub preview_line : Text → Text → OpsRunner A → Result (OpsRunner A)
  unfolding change
  preview_line id line = change id (append_log line)
