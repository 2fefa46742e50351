-- ===== src/Deploy/Sync/Order.antt =====
-- pibot/deploy/sync.py: what a dry run runs.
use pibot.Prelude.{◌≡◌, refl, ℕ, Bool, true, Option, some, [], ◌∷◌, ◌++◌, get_elem?}
use pibot.Python.Text.{Text, codes}
use pibot.Python.Result.{Result, ok, err}
use pibot.Python.Action.{continue}
use pibot.Deploy.Runner.{Host, History, RunResult}
use pibot.Deploy.Sync.{activate, make_dir, deploy, sync_argv, release_name, build_rsync_argv}

module _ (host : Host) (space : ℕ → Bool) (ignore : Text) (dest src_root base : Text) where
  ran-continue :
      {A : Type 0} (f : RunResult → A) (r : Result RunResult) (h : History)
      → (continue r (λ x h'. (ok (f x), h')) h).1 ≡ h
  ran-continue f (ok x) h = refl
  ran-continue f (err why) h = refl

  -- A dry run runs one command, rsync with the option -n, whatever it answers, and what it
  -- returns is not activated.
  pub deploy-dry :
      (identity : Option Text) (name : Option Text) (stamp : Text) (h : History)
      → ((deploy host space ignore dest src_root base identity true name stamp h).1
          ≡ h
            ++ sync_argv host space ignore dest src_root base identity true
                (release_name name stamp)
              ∷ [])
        × (get_elem?
              (sync_argv host space ignore dest src_root base identity true
                (release_name name stamp))
              4
            ≡ some (codes "-n"))
  unfolding deploy make_dir activate sync_argv build_rsync_argv
  deploy-dry identity name stamp h = (
    ran-continue _
        (host h
          (sync_argv host space ignore dest src_root base identity true (release_name name stamp)))
        _,
    refl,
  )
