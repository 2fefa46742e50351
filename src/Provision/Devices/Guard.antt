-- ===== src/Provision/Devices/Guard.antt =====
-- pibot/provision/devices.py: the mounts of a disk that the guard lets through.
use pibot.Prelude.{
  ◌≡◌, refl, ap, ◌∙◌, Bool, true, false, ◌||◌, Bool-cases, Option, none, some, Option-cases, inl,
  inr, List, [], ◌∷◌, All, if◌then◌else◌,
}
use pibot.Prelude.Int.{ℤ}
use pibot.Python.Text.{Text, codes, text_eq, strip_prefix}
use pibot.Python.Result.{Result, ok, err, pibot_error, key_error, or_raise, ok-injective, >>=-ok}
use pibot.Python.Value.{str, Runtime}
use pibot.Python.Tree.{Tree, leaf, dict, Fields, field_at, truth_of}
use pibot.Provision.Devices.{
  BlockDevice, has_root, any_system, collect_mounts, size_of, model_of, device_of,
  assert_safe_target,
}
use pibot.Provision.Devices.Below.{NodeOf, collect_mounts-NodeOf, own_mount-All}

module _ {F O : Type 0} where
  -- A mountpoint is neither / nor one that starts with /boot.
  abbrev pub IsHarmless : Tree F O → Type 0
  IsHarmless (leaf (str s)) =
      (text_eq s (codes "/") ≡ false) × (strip_prefix (codes "/boot") s ≡ none)
  IsHarmless t = Unit

  any_system-IsHarmless : (ms : List (Tree F O)) → any_system ms ≡ ok false → All IsHarmless ms
  unfolding any_system
  any_system-IsHarmless [] h = tt
  any_system-IsHarmless (leaf (str s) ∷ ms) h = elim (Bool-cases (text_eq s (codes "/"))) [
    | inl e ↦ let c = rw (any_system, e) at h in cc
    | inr e ↦ elim (Option-cases (strip_prefix (codes "/boot") s)) [
      | inl f ↦ ((e, f), any_system-IsHarmless ms (rw (any_system, e, f) at h))
      | inr (t, f) ↦ let c = rw (any_system, e, f) at h in cc
    ]
  ]
  any_system-IsHarmless (m ∷ ms) h = cc

module _ {F O : Type 0} (py : Runtime F O) (show : Tree F O → Text) (lower : Text → Text)
    (ratio : ℤ → ℤ → F) where
  refused :
      (system rooted internal : Bool) (checked : Result (Unit {0}))
      → (if system || rooted
          then err pibot_error
          else if internal
          then err pibot_error
          else checked)
        ≡ ok tt
      → (system ≡ false) × (internal ≡ false)
  refused true rooted internal checked h = cc
  refused false true internal checked h = cc
  refused false false true checked h = cc
  refused false false false checked h = (refl, refl)

  not_system :
      (dev : BlockDevice F O) (size : Option ℤ) (model : Option Text)
      → assert_safe_target py lower ratio dev size model ≡ ok tt
      → (dev.is_system ≡ false) × (dev.internal ≡ false)
  unfolding assert_safe_target
  not_system dev size model h = refused dev.is_system (has_root dev.mountpoints) dev.internal _ h

  system_of :
      (d : Fields F O) (dev : BlockDevice F O)
      → device_of py show d ≡ ok dev
      → (ms : List (Tree F O)) × (collect_mounts py show (dict d) ≡ ok ms)
        × (any_system ms ≡ ok dev.is_system)
  unfolding device_of
  system_of d dev h =
      let (ms, e, h1) = >>=-ok (collect_mounts py show (dict d)) h in
      let (name, _, h2) = >>=-ok (or_raise (field_at (codes "name") d) key_error) h1 in
      let (size, _, h3) = >>=-ok (size_of py show (field_at (codes "size") d)) h2 in
      let (model, _, h4) = >>=-ok (model_of py show (field_at (codes "model") d)) h3 in
      let (system, f, h5) = >>=-ok (any_system ms) h4 in
      (ms, e, f ∙ ap (λ x. ok (x.is_system)) (ok-injective h5))

  -- A disk that lsblk listed and the guard lets through has nothing mounted at / or at a path that
  -- starts with /boot: neither the disk itself nor any node below it in lsblk's tree, at any depth.
  pub safe_target_unmounted :
      (d : Fields F O) (dev : BlockDevice F O) (size : Option ℤ) (model : Option Text)
      (n : Fields F O) (m : Tree F O)
      → device_of py show d ≡ ok dev
      → assert_safe_target py lower ratio dev size model ≡ ok tt
      → NodeOf d n
      → field_at (codes "mountpoint") n ≡ some m
      → truth_of py m ≡ true
      → IsHarmless m
  safe_target_unmounted d dev size model n m made safe node at full =
      let (ms, e, f) = system_of d dev made in
      let (g, k) = not_system dev size model safe in
      own_mount-All py show IsHarmless n m at full (
        collect_mounts-NodeOf py show IsHarmless d n ms node e
          (any_system-IsHarmless ms (f ∙ ap ok g)))
