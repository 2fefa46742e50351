-- ===== src/Provision/Devices/Below.antt =====
-- pibot/provision/devices.py: the nodes of the tree that lsblk prints, and the mounts that are found.
use mathlib.Core.Path.{subst}
use pibot.Prelude.{◌≡◌, sym, true, Bool-cases, inl, inr, some, List, [], ◌∷◌, ◌++◌, All}
use pibot.Python.Text.{Text, codes, text_eq}
use pibot.Python.Result.{ok, ok-injective, >>=-ok}
use pibot.Python.Value.{Runtime}
use pibot.Python.Tree.{Tree, list, dict, Items, item, Fields, no_fields, field, field_at, truth_of}
use pibot.Provision.Devices.{collect_mounts, own_mount, children_in, mounts_below, mounts_of_each}

module _ {F O : Type 0} where
  -- A tree is one of the items of a list.
  pub data Among (t : Tree F O) : Items F O → Type 0 where
    first : (ts : Items F O) → Among t (item t ts)
    later : (u : Tree F O) (ts : Items F O) → Among t ts → Among t (item u ts)

  -- The nodes of a tree: the disk, and those of each of its children.
  pub data NodeOf : Fields F O → Fields F O → Type 0 where
    itself : (d : Fields F O) → NodeOf d d
    in_child :
        (d c n : Fields F O) (ts : Items F O)
        → field_at (codes "children") d ≡ some (list ts)
        → Among (dict c) ts
        → NodeOf c n
        → NodeOf d n

  All-parts :
      (P : Tree F O → Type 0) (xs ys : List (Tree F O)) → All P (xs ++ ys) → All P xs × All P ys
  All-parts P [] ys h = (tt, h)
  All-parts P (x ∷ xs) ys (p, h) = let (a, b) = All-parts P xs ys h in ((p, a), b)

module _ {F O : Type 0} (py : Runtime F O) (show : Tree F O → Text) (P : Tree F O → Type 0) where
  children_in-each :
      (d : Fields F O) (ts : Items F O) (ms : List (Tree F O))
      → field_at (codes "children") d ≡ some (list ts)
      → children_in py show d ≡ ok ms
      → mounts_of_each py show ts ≡ ok ms
  unfolding children_in field_at mounts_below
  children_in-each no_fields ts ms at h = cc
  children_in-each (field k t d) ts ms at h = elim (Bool-cases (text_eq k (codes "children"))) [
    | inl e ↦
        let at' : some t ≡ some (list ts) = rw (field_at, e) at at in
        let h' : mounts_below py show t ≡ ok ms = rw (children_in, e) at h in
        let same : t ≡ list ts = cc in subst (λ u. mounts_below py show u ≡ ok ms) same h'
    | inr e ↦ children_in-each d ts ms (rw (field_at, e) at at) (rw (children_in, e) at h)
  ]

  mounts_of_each-Among :
      (t : Tree F O) (ts : Items F O) (ms : List (Tree F O))
      → Among t ts
      → mounts_of_each py show ts ≡ ok ms
      → All P ms
      → (own : List (Tree F O)) × (collect_mounts py show t ≡ ok own) × All P own
  unfolding mounts_of_each
  mounts_of_each-Among t _ ms (first ts) h all =
      let (own, e, h1) = >>=-ok (collect_mounts py show t) h in
      let (more, f, h2) = >>=-ok (mounts_of_each py show ts) h1 in
      (own, e, (All-parts P own more (subst (All P) (sym (ok-injective h2)) all)).0)
  mounts_of_each-Among t _ ms (later u ts among) h all =
      let (own, e, h1) = >>=-ok (collect_mounts py show u) h in
      let (more, f, h2) = >>=-ok (mounts_of_each py show ts) h1 in
      mounts_of_each-Among t ts more among f
        ((All-parts P own more (subst (All P) (sym (ok-injective h2)) all)).1)

  -- What holds of all that is collected holds of the mount of each node.
  pub collect_mounts-NodeOf :
      (d n : Fields F O) (ms : List (Tree F O))
      → NodeOf d n
      → collect_mounts py show (dict d) ≡ ok ms
      → All P ms
      → All P (own_mount py show n)
  unfolding collect_mounts
  collect_mounts-NodeOf d _ ms (itself _) h all =
      let (below, e, h1) = >>=-ok (children_in py show d) h in
      (All-parts P (own_mount py show d) below (subst (All P) (sym (ok-injective h1)) all)).0
  collect_mounts-NodeOf d n ms (in_child _ c _ ts at among node) h all =
      let (below, e, h1) = >>=-ok (children_in py show d) h in
      let (own, f, all') =
        mounts_of_each-Among (dict c) ts below among (children_in-each d ts below at e) (
          (All-parts P (own_mount py show d) below
            (subst (All P) (sym (ok-injective h1)) all)).1) in
      collect_mounts-NodeOf c n own node f all'

  -- A mountpoint that is not empty is the node's mount.
  pub own_mount-All :
      (n : Fields F O) (m : Tree F O)
      → field_at (codes "mountpoint") n ≡ some m
      → truth_of py m ≡ true
      → All P (own_mount py show n)
      → P m
  unfolding own_mount
  own_mount-All n m at full all = let k = rw (own_mount, at, full) at all in k.0
