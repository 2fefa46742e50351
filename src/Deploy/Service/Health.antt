-- ===== src/Deploy/Service/Health.antt =====
-- pibot/deploy/service.py: what it takes for an install or a rollback to return 0.
use pibot.Prelude.{
  ◌≡◌, refl, ℕ, zero, suc, Bool, true, false, Bool-cases, inl, inr, if◌then◌else◌, Option, List, [],
  ◌∷◌, ◌++◌,
}
use pibot.Prelude.Int.{ℤ, pos, eqb_ℤ}
use pibot.Python.Text.{Text, strip, is_empty}
use pibot.Python.Result.{Result, ok, err}
use pibot.Python.Action.{continue, ◌>>=◌, pure}
use pibot.Deploy.Runner.{Host, Session, History, RunResult, ssh_argv}
use pibot.Deploy.Service.{
  Target, run_on, succeeded, poll_health, restart_and_verify, run_steps, install,
  install_unit_command, venv_commands, venv_path, rollback, health_check_command,
  previous_release_command, daemon_reload_command, enable_command, restart_command,
}
use pibot.Deploy.Sync.{activate_command}

module _ (host : Host) (t : Target) where
  -- So many more health checks.
  unfoldable pub checked : ℕ → History → History
  checked zero h = h
  checked (suc n) h = checked n (h ++ ssh_argv t.dest (health_check_command t.port) t.identity ∷ [])

  -- After h, health checks and nothing else were run, and the exit code of the last was 0.
  abbrev pub Polled : History → History → Type 0
  Polled h h' =
      (n : ℕ) × (r : RunResult) × (h'
        ≡ checked n h ++ ssh_argv t.dest (health_check_command t.port) t.identity ∷ [])
      × (host (checked n h) (ssh_argv t.dest (health_check_command t.port) t.identity) ≡ ok r)
      × (eqb_ℤ r.exit_code (pos 0) ≡ true)

  -- The restart was run, with the exit code 0, and after it only health checks, the last with 0.
  abbrev pub Healthy : History → Type 0
  Healthy h' =
      (h : History) × (r : RunResult) × (host h (ssh_argv t.dest restart_command t.identity) ≡ ok r)
      × (eqb_ℤ r.exit_code (pos 0) ≡ true)
      × Polled (h ++ ssh_argv t.dest restart_command t.identity ∷ []) h'

  abbrev Gated : Session ℤ → Type 0
  Gated m = (h h' : History) → m h ≡ (ok (pos 0), h') → Healthy h'

  answered-Healthy :
      {A : Type 0} {next : A → Session ℤ} (p : Result A × History) (h' : History)
      → ((a : A) → Gated (next a))
      → (let (r, h) = p in continue r next h) ≡ (ok (pos 0), h')
      → Healthy h'
  answered-Healthy (ok a, h) h' gated e = gated a h h' e
  answered-Healthy (err why, h) h' gated e = cc

  -- Only what follows a command decides.
  Gated-run :
      (command : Text) {next : RunResult → Session ℤ}
      → ((r : RunResult) → Gated (next r))
      → Gated (run_on host t command >>= next)
  unfolding run_on
  Gated-run command gated h h' e = answered-Healthy (run_on host t command h) h' gated e

  nonzero-Gated : (code : ℤ) → eqb_ℤ code (pos 0) ≡ false → Gated (pure code)
  nonzero-Gated code nonzero h h' e = cc

  -- After a command that must succeed.
  checked-Gated :
      (r : RunResult) {next : Session ℤ}
      → Gated next
      → Gated (if succeeded host t r then next else pure r.exit_code)
  checked-Gated r gated = elim (Bool-cases (succeeded host t r)) [
    | inl e ↦ rw e gated
    | inr e ↦ rw e (nonzero-Gated r.exit_code e)
  ]

  health_Polled :
      {rest : Session ℤ} (answer : Result RunResult) (h h' : History)
      → ((e : History) → rest e ≡ (ok (pos 0), h') → Polled e h')
      → host h (ssh_argv t.dest (health_check_command t.port) t.identity) ≡ answer
      → continue answer
          (λ health. if succeeded host t health then pure (pos 0) else rest)
          (h ++ ssh_argv t.dest (health_check_command t.port) t.identity ∷ [])
        ≡ (ok (pos 0), h')
      → Polled h h'
  unfolding checked
  health_Polled (err why) h h' polled answered e = cc
  health_Polled (ok r) h h' polled answered e = elim (Bool-cases (succeeded host t r)) [
    | inl s ↦ (0, r, cc, answered, s)
    | inr s ↦ let (n, c, ran, last, good) = polled _ (rw s at e) in (suc n, c, ran, last, good)
  ]

  poll_health-Polled :
      (attempts : ℕ) (h h' : History)
      → poll_health host t attempts h ≡ (ok (pos 0), h')
      → Polled h h'
  unfolding poll_health run_on
  poll_health-Polled zero h h' e = cc
  poll_health-Polled (suc attempts) h h' e =
      health_Polled (host h (ssh_argv t.dest (health_check_command t.port) t.identity)) h h'
        (λ g. poll_health-Polled attempts g h') refl e

  restarted-Healthy :
      (attempts : ℕ) (answer : Result RunResult) (h h' : History)
      → host h (ssh_argv t.dest restart_command t.identity) ≡ answer
      → continue answer
          (λ r. if succeeded host t r then poll_health host t attempts else pure r.exit_code)
          (h ++ ssh_argv t.dest restart_command t.identity ∷ [])
        ≡ (ok (pos 0), h')
      → Healthy h'
  restarted-Healthy attempts (err why) h h' answered e = cc
  restarted-Healthy attempts (ok r) h h' answered e = elim (Bool-cases (succeeded host t r)) [
    | inl s ↦ (h, r, answered, s, poll_health-Polled attempts _ h' (rw s at e))
    | inr s ↦ nonzero-Gated r.exit_code s _ h' (rw s at e)
  ]

  restart-Gated :
      (attempts : ℕ)
      → Gated (
          run_on host t restart_command >>= λ r.
          if succeeded host t r then poll_health host t attempts else pure r.exit_code)
  unfolding run_on
  restart-Gated attempts h h' e =
      restarted-Healthy attempts (host h (ssh_argv t.dest restart_command t.identity)) h h' refl e

  restart_and_verify-Gated : (attempts : ℕ) → Gated (restart_and_verify host t attempts)
  unfolding restart_and_verify
  restart_and_verify-Gated attempts =
      Gated-run daemon_reload_command (λ _. Gated-run enable_command (λ _. restart-Gated attempts))

  run_steps-Gated :
      (commands : List Text) {after : Session ℤ}
      → Gated after
      → Gated (run_steps host t commands after)
  unfolding run_steps
  run_steps-Gated [] gated = gated
  run_steps-Gated (c ∷ cs) gated = Gated-run c (λ r. checked-Gated r (run_steps-Gated cs gated))

  -- An install that returned 0 has restarted the agent, with the exit code 0 of that command, and
  -- has run nothing after it but health checks, the last of which had the exit code 0.
  pub install-Healthy :
      (remote_base : Text) (venv : Option Text) (user : Text) (attempts : ℕ) (h h' : History)
      → install host t remote_base venv user attempts h ≡ (ok (pos 0), h')
      → Healthy h'
  unfolding install
  install-Healthy remote_base venv user attempts =
      Gated-run (install_unit_command remote_base (venv_path host t venv remote_base) user) (λ _.
        run_steps-Gated (venv_commands remote_base (venv_path host t venv remote_base))
          (restart_and_verify-Gated attempts))

  -- A rollback that returned 0 has restarted the agent, with the exit code 0 of that command, and
  -- has run nothing after it but health checks, the last of which had the exit code 0.
  pub rollback-Healthy :
      (space : ℕ → Bool) (remote_base : Text) (attempts : ℕ) (h h' : History)
      → rollback host t space remote_base attempts h ≡ (ok (pos 0), h')
      → Healthy h'
  unfolding rollback
  rollback-Healthy space remote_base attempts =
      Gated-run (previous_release_command remote_base) (λ prev.
        elim (Bool-cases (is_empty (strip space prev.stdout))) [
          | inl e ↦ rw e (nonzero-Gated (pos 1) refl)
          | inr e ↦ rw e (
              Gated-run (activate_command remote_base (strip space prev.stdout))
                (λ _. restart_and_verify-Gated attempts))
        ])
