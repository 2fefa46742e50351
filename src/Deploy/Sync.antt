-- ===== src/Deploy/Sync.antt =====
-- pibot/deploy/sync.py. `space` is str.isspace, `stamp` the time of day in a release's name, and
-- `ignore` the text of deploy/.deployignore.
pub mod Order
use pibot.Prelude.{
  ℕ, Bool, true, false, ◌&&◌, ◌||◌, not, Option, none, some, List, [], ◌∷◌, ◌++◌, ◌==◌,
  if◌then◌else◌,
}
use pibot.Prelude.Int.{ℤ}
use pibot.Python.Text.{
  Text, codes, concat, strip, rstrip, rstrip_char, splitlines, partition, is_empty,
}
use pibot.Connection.Ssh.{ssh_transport, run_command, line, default_timeout}
use pibot.Python.Action.{◌>>=◌, ◌>>◌, pure}
use pibot.Deploy.Runner.{Host, Session, run_capture, RunResult, ssh_argv}

starts_with : ℕ → Text → Bool
starts_with c [] = false
starts_with c (d ∷ s) = d == c

module _ (space : ℕ → Bool) where
  patterns_of : List Text → List Text
  unfolding strip starts_with
  patterns_of [] = []
  patterns_of (l ∷ ls) =
      let pattern' = strip space l in
      let rest = patterns_of ls in
      if not (is_empty pattern') && not (starts_with b'#' pattern') then pattern' ∷ rest else rest

  -- `load_excludes`, of the file's text
  unfoldable pub load_excludes : Text → List Text
  unfolding splitlines patterns_of
  load_excludes text = patterns_of (splitlines text)

  is_change : Text → Bool
  is_change [] = false
  is_change (c ∷ s) = c == b'<' || (c == b'>' || (c == b'c' || c == b'*'))

  changed_in : List Text → List Text
  unfolding strip rstrip partition is_change
  changed_in [] = []
  changed_in (l ∷ ls) =
      let (code, path) = partition b' ' (rstrip space l) in
      let path' = strip space path in
      let rest = changed_in ls in
      if not (is_empty path') && is_change code then path' ∷ rest else rest

  unfoldable pub parse_changes : Text → List Text
  unfolding splitlines changed_in
  parse_changes itemized = changed_in (splitlines itemized)

exclude_options : List Text → List Text
exclude_options [] = []
exclude_options (p ∷ ps) = codes "--exclude" ∷ p ∷ exclude_options ps

unfoldable pub build_rsync_argv : Text → Text → List Text → Option Text → Bool → List Text
unfolding ssh_transport exclude_options
build_rsync_argv src_root remote excludes identity dry_run =
    codes "rsync"
    ∷ codes "-a"
    ∷ codes "--delete"
    ∷ codes "-i"
    ∷ ((if dry_run then codes "-n" ∷ [] else [])
        ++ (exclude_options excludes
            ++ (codes "-e" ∷ ssh_transport identity default_timeout ∷ src_root ∷ remote ∷ [])))

unfoldable pub remote_release_dir : Text → Text → Text
unfolding concat rstrip_char
remote_release_dir base name = concat (rstrip_char b'/' base ∷ codes "/releases/" ∷ name ∷ [])

unfoldable pub mkdir_command : Text → Text → Text
unfolding remote_release_dir
mkdir_command base name = codes "mkdir -p " ++ remote_release_dir base name

unfoldable pub activate_command : Text → Text → Text
unfolding concat rstrip_char
activate_command base name =
    let base' = rstrip_char b'/' base in
    let tmp = base' ++ codes "/.current.tmp" in
    concat (
      codes "ln -sfn "
      ∷ base'
      ∷ codes "/releases/"
      ∷ name
      ∷ codes " "
      ∷ tmp
      ∷ codes " && mv -T "
      ∷ tmp
      ∷ codes " "
      ∷ base'
      ∷ codes "/current"
      ∷ [])

pub record DeployResult : Type 0 where
  pub release : Text
  pub changed : List Text
  pub activated : Bool

-- `name or new_release_name()`
unfoldable pub release_name : Option Text → Text → Text
release_name none stamp = stamp
release_name (some name) stamp = if is_empty name then stamp else name

module _ (host : Host) (space : ℕ → Bool) (ignore : Text) (dest src_root base : Text) where
  -- The end of `deploy`: a real run swaps `current`.
  activate : Option Text → Bool → Text → List Text → Session DeployResult
  unfolding activate_command remote_release_dir run_command
  activate identity true name changed =
      pure (record { release = remote_release_dir base name; changed = changed; activated = false })
  activate identity false name changed = do
    run_capture host (ssh_argv dest (activate_command base name) identity)
    pure (record { release = remote_release_dir base name; changed = changed; activated = true })

  -- A real run makes the directory of the release before what follows.
  make_dir : Bool → Text → Session DeployResult → Session DeployResult
  unfolding mkdir_command
  make_dir true name after = after
  make_dir false name after =
      run_capture host (ssh_argv dest (mkdir_command base name) none) >> after

  unfoldable pub sync_argv : Option Text → Bool → Text → List Text
  unfolding build_rsync_argv remote_release_dir load_excludes concat
  sync_argv identity dry_run name =
      build_rsync_argv src_root
        (concat (dest ∷ codes ":" ∷ remote_release_dir base name ∷ codes "/" ∷ []))
        (load_excludes space ignore) identity dry_run

  unfoldable pub deploy : Option Text → Bool → Option Text → Text → Session DeployResult
  unfolding make_dir sync_argv parse_changes activate release_name
  deploy identity dry_run name stamp =
      let release = release_name name stamp in
      make_dir dry_run release (
        run_capture host (sync_argv identity dry_run release) >>= λ result.
        activate identity dry_run release (parse_changes space result.stdout))
