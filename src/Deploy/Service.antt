-- ===== src/Deploy/Service.antt =====
-- pibot/deploy/service.py. The pauses between health checks are left out.
pub mod Health
pub mod Attempts
use pibot.Prelude.{
  ℕ, zero, suc, Bool, true, false, not, Option, none, some, List, [], ◌∷◌, ◌++◌, if◌then◌else◌, leb,
}
use pibot.Prelude.Int.{ℤ, pos, eqb_ℤ, ltb_ℤ}
use pibot.Python.Text.{Text, codes, concat, rstrip_char, strip, is_empty}
use pibot.Python.Number.{text_of_int}
use pibot.Python.Action.{◌>>=◌, ◌>>◌, pure}
use pibot.Deploy.Runner.{Host, Session, run_capture, RunResult, ssh_argv}
use pibot.Deploy.Sync.{activate_command}

nl : Text
nl = b'\n' ∷ []

-- Lines with their ends.
unlines : List Text → Text
unlines [] = []
unlines (l ∷ ls) = l ++ b'\n' ∷ unlines ls

-- The type of the unit, when it is restarted, and the lines of the watchdog.
watchdog_lines : Option ℤ → Text × Text × List Text
unfolding concat text_of_int
watchdog_lines none = (codes "simple", codes "on-failure", [])
watchdog_lines (some sec) = (
  codes "notify",
  codes "on-watchdog",
  concat (codes "WatchdogSec=" ∷ text_of_int sec ∷ codes "s" ∷ [])
      ∷ codes "StartLimitIntervalSec=60"
      ∷ codes "StartLimitBurst=5"
      ∷ [],
)

unfoldable pub render_unit : Text → Text → Text → Option ℤ → Text
unfolding unlines watchdog_lines rstrip_char concat
render_unit remote_base venv user watchdog_sec =
    let base = rstrip_char b'/' remote_base in
    let (service_type, restart, watchdog) = watchdog_lines watchdog_sec in
    unlines (
      codes "[Unit]"
      ∷ codes "Description=PiBot robot control agent (pibotd)"
      ∷ codes "After=network-online.target"
      ∷ codes "Wants=network-online.target"
      ∷ []
      ∷ codes "[Service]"
      ∷ concat (codes "Type=" ∷ service_type ∷ [])
      ∷ concat (codes "User=" ∷ user ∷ [])
      ∷ concat (codes "WorkingDirectory=" ∷ base ∷ codes "/current" ∷ [])
      ∷ concat (codes "ExecStart=" ∷ venv ∷ codes "/bin/python -m agent" ∷ [])
      ∷ concat (codes "Restart=" ∷ restart ∷ [])
      ∷ codes "RestartSec=2"
      ∷ (watchdog
          ++ (codes "StandardOutput=journal"
              ∷ codes "StandardError=journal"
              ∷ []
              ∷ codes "[Install]"
              ∷ codes "WantedBy=multi-user.target"
              ∷ [])))

unfoldable pub render_watchdog_conf : ℤ → Text → Text
unfolding unlines text_of_int
render_watchdog_conf runtime_sec reboot =
    let sec = if ltb_ℤ (pos 15) runtime_sec then pos 15 else runtime_sec in
    unlines (
      codes "# PiBot: arm the BCM hardware watchdog (a frozen kernel reboots itself)."
      ∷ codes "[Manager]"
      ∷ (codes "RuntimeWatchdogSec=" ++ text_of_int sec)
      ∷ (codes "RebootWatchdogSec=" ++ reboot)
      ∷ [])

unfoldable pub render_nebula_unit : Text → Text → Text
unfolding unlines concat
render_nebula_unit config binary = unlines (
    codes "[Unit]"
    ∷ codes "Description=Nebula overlay network (PiBot)"
    ∷ codes "Wants=basic.target network-online.target"
    ∷ codes "After=basic.target network.target network-online.target"
    ∷ []
    ∷ codes "[Service]"
    ∷ concat (codes "ExecStart=" ∷ binary ∷ codes " -config " ∷ config ∷ [])
    ∷ codes "ExecReload=/bin/kill -HUP $MAINPID"
    ∷ codes "SyslogIdentifier=nebula"
    ∷ codes "Restart=always"
    ∷ codes "RestartSec=2"
    ∷ codes "AmbientCapabilities=CAP_NET_ADMIN"
    ∷ codes "CapabilityBoundingSet=CAP_NET_ADMIN"
    ∷ []
    ∷ codes "[Install]"
    ∷ codes "WantedBy=multi-user.target"
    ∷ [])

abbrev pub heredoc_end : Text
heredoc_end = codes "PIBOTD_UNIT"

unfoldable pub install_unit_command : Text → Text → Text → Text
unfolding concat render_unit
install_unit_command remote_base venv user = concat (
    codes "sudo tee /etc/systemd/system/pibotd.service >/dev/null <<'"
    ∷ heredoc_end
    ∷ codes "'"
    ∷ (b'\n' ∷ [])
    ∷ render_unit remote_base venv user none
    ∷ heredoc_end
    ∷ [])

unfoldable pub venv_commands : Text → Text → List Text
unfolding concat rstrip_char
venv_commands remote_base venv =
    (codes "python3 -m venv " ++ venv)
    ∷ concat (venv ∷ codes "/bin/pip install -U pip" ∷ [])
    ∷ concat (
        venv
        ∷ codes "/bin/pip install -r "
        ∷ rstrip_char b'/' remote_base
        ∷ codes "/current/deploy/requirements.txt"
        ∷ [])
    ∷ []

abbrev pub daemon_reload_command : Text
daemon_reload_command = codes "sudo systemctl daemon-reload"

abbrev pub enable_command : Text
enable_command = codes "sudo systemctl enable pibotd"

abbrev pub restart_command : Text
restart_command = codes "sudo systemctl restart pibotd"

unfoldable pub health_check_command : ℤ → Text
unfolding concat text_of_int
health_check_command port =
    concat
      (codes "curl -fsS --max-time 3 http://127.0.0.1:" ∷ text_of_int port ∷ codes "/health" ∷ [])

unfoldable pub previous_release_command : Text → Text
unfolding concat rstrip_char
previous_release_command remote_base =
    let base = rstrip_char b'/' remote_base in
    concat (
      codes "cur=$(basename $(readlink "
      ∷ base
      ∷ codes "/current 2>/dev/null)); ls -1 "
      ∷ base
      ∷ codes "/releases 2>/dev/null | sort | grep -vx "
      ∷ (b'"' ∷ codes "$cur")
      ∷ (b'"' ∷ codes " | tail -1")
      ∷ [])

pub record Target : Type 0 where
  pub dest : Text
  pub port : ℤ
  pub identity : Option Text

module _ (host : Host) (t : Target) where
  -- `_run`
  unfoldable pub run_on : Text → Session RunResult
  unfolding ssh_argv
  run_on command = run_capture host (ssh_argv t.dest command t.identity)

  abbrev pub succeeded : RunResult → Bool
  succeeded r = eqb_ℤ r.exit_code (pos 0)

  -- The loop of `_restart_and_verify`, for so many attempts.
  unfoldable pub poll_health : ℕ → Session ℤ
  unfolding run_on health_check_command
  poll_health zero = pure (pos 1)
  poll_health (suc attempts) =
      let rest = poll_health attempts in
      run_on (health_check_command t.port) >>= λ health.
      if succeeded health then pure (pos 0) else rest

  -- `_restart_and_verify`
  unfoldable pub restart_and_verify : ℕ → Session ℤ
  unfolding run_on poll_health
  restart_and_verify attempts = do
    run_on daemon_reload_command
    run_on enable_command
    restart ← run_on restart_command
    if succeeded restart then poll_health attempts else pure restart.exit_code

  -- The loop over the commands of the venv, and what follows it.
  unfoldable pub run_steps : List Text → Session ℤ → Session ℤ
  unfolding run_on
  run_steps [] after = after
  run_steps (command ∷ commands) after =
      let rest = run_steps commands after in
      run_on command >>= λ result. if succeeded result then rest else pure result.exit_code

  -- `venv or …`
  unfoldable pub venv_path : Option Text → Text → Text
  unfolding rstrip_char
  venv_path none remote_base = rstrip_char b'/' remote_base ++ codes "/venv"
  venv_path (some venv) remote_base =
      if is_empty venv then rstrip_char b'/' remote_base ++ codes "/venv" else venv

  unfoldable pub install : Text → Option Text → Text → ℕ → Session ℤ
  unfolding run_on run_steps restart_and_verify install_unit_command venv_commands venv_path
  install remote_base venv user attempts = do
    run_on (install_unit_command remote_base (venv_path venv remote_base) user)
    run_steps (venv_commands remote_base (venv_path venv remote_base)) (restart_and_verify attempts)

  unfoldable pub rollback : (ℕ → Bool) → Text → ℕ → Session ℤ
  unfolding run_on restart_and_verify previous_release_command activate_command strip
  rollback space remote_base attempts = do
    prev ← run_on (previous_release_command remote_base)
    let name = strip space prev.stdout
    (if is_empty name
        then pure (pos 1)
        else (run_on (activate_command remote_base name) >> restart_and_verify attempts))
