-- ===== src/Deploy/Service/Attempts.antt =====
-- pibot/deploy/service.py: how many commands an install runs.
use pibot.Prelude.{
  ℕ, zero, suc, ◌+◌, ◌≤◌, Bool-cases, inl, inr, if◌then◌else◌, Option, List, [], ◌∷◌, ◌++◌, length,
  length-append, arith,
}
use pibot.Prelude.Int.{ℤ}
use pibot.Python.Text.{Text}
use pibot.Python.Result.{Result, ok, err}
use pibot.Python.Action.{continue, ◌>>=◌, pure}
use pibot.Deploy.Runner.{Host, Session, History, RunResult, ssh_argv}
use pibot.Deploy.Service.{
  Target, run_on, succeeded, poll_health, restart_and_verify, run_steps, install,
  install_unit_command, venv_commands, venv_path, health_check_command, daemon_reload_command,
  enable_command, restart_command,
}

module _ (host : Host) (t : Target) where
  -- An action runs n commands at most.
  record Runs (n : ℕ) (m : Session ℤ) : Type 0 where
    within : (h : History) → length (m h).1 ≤ length h + n

  answered-Runs :
      (n : ℕ) (next : RunResult → Session ℤ) (answer : Result RunResult) (argv : List Text)
      (h : History)
      → ((r : RunResult) → Runs n (next r))
      → length (continue answer next (h ++ argv ∷ [])).1 ≤ length h + suc n
  answered-Runs n next (ok r) argv h runs =
      omega (arith, (runs r).within (h ++ argv ∷ []), length-append h (argv ∷ []))
  answered-Runs n next (err why) argv h runs = omega (arith, length-append h (argv ∷ []))

  Runs-run :
      {n : ℕ} (command : Text) {next : RunResult → Session ℤ}
      → ((r : RunResult) → Runs n (next r))
      → Runs (suc n) (run_on host t command >>= next)
  unfolding run_on
  Runs-run {n = n} command {next = next} runs =
      let argv = ssh_argv t.dest command t.identity in
      record { within = λ h. answered-Runs n next (host h argv) argv h runs }

  Runs-checked :
      {n : ℕ} {next : Session ℤ} (r : RunResult) (code : ℤ)
      → Runs n next
      → Runs n (if succeeded host t r then next else pure code)
  Runs-checked r code runs = elim (Bool-cases (succeeded host t r)) [
    | inl e ↦ rw e runs
    | inr e ↦ rw e (record { within = λ h. omega arith })
  ]

  poll_health-Runs : (attempts : ℕ) → Runs attempts (poll_health host t attempts)
  unfolding poll_health
  poll_health-Runs zero = record { within = λ h. omega arith }
  poll_health-Runs (suc attempts) = Runs-run (health_check_command t.port) (λ health.
      elim (Bool-cases (succeeded host t health)) [
        | inl e ↦ rw e (record { within = λ h. omega arith })
        | inr e ↦ rw e (poll_health-Runs attempts)
      ])

  restart_and_verify-Runs :
      (attempts : ℕ) → Runs (suc (suc (suc attempts))) (restart_and_verify host t attempts)
  unfolding restart_and_verify
  restart_and_verify-Runs attempts = Runs-run daemon_reload_command (λ _.
      Runs-run enable_command (λ _.
        Runs-run restart_command
          (λ restart. Runs-checked restart restart.exit_code (poll_health-Runs attempts))))

  -- n, and one for each of the commands
  abbrev counted : List Text → ℕ → ℕ
  counted [] n = n
  counted (c ∷ cs) n = suc (counted cs n)

  run_steps-Runs :
      {n : ℕ} {after : Session ℤ} (commands : List Text)
      → Runs n after
      → Runs (counted commands n) (run_steps host t commands after)
  unfolding run_steps
  run_steps-Runs [] runs = runs
  run_steps-Runs (c ∷ cs) runs =
      Runs-run c (λ result. Runs-checked result result.exit_code (run_steps-Runs cs runs))

  install-Runs :
      (remote_base : Text) (venv : Option Text) (user : Text) (attempts : ℕ)
      → Runs
          (suc (suc (suc (suc (suc (suc (suc attempts)))))))
          (install host t remote_base venv user attempts)
  unfolding install venv_commands
  install-Runs remote_base venv user attempts =
      let path = venv_path host t venv remote_base in
      Runs-run (install_unit_command remote_base path user)
        (λ _. run_steps-Runs (venv_commands remote_base path) (restart_and_verify-Runs attempts))

  -- An install ends, returning or raising, after 7 commands and as many health checks as
  -- attempts at most, whatever the host answers.
  pub install_ends :
      (remote_base : Text) (venv : Option Text) (user : Text) (attempts : ℕ) (h : History)
      → length (install host t remote_base venv user attempts h).1 ≤ length h + (7 + attempts)
  install_ends remote_base venv user attempts h =
      omega (arith, (install-Runs remote_base venv user attempts).within h)
