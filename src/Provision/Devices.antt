-- ===== src/Provision/Devices.antt =====
-- pibot/provision/devices.py, for Linux: the disks that lsblk lists, and the guard before one is
-- written. `show` is str() of a list or a dict, `lower` is str.lower and `ratio` is a / b of two ints.
-- The texts of the errors are left out.
pub mod Below
pub mod Guard
use pibot.Prelude.{
  ℕ, ◌+◌, Bool, true, false, ◌&&◌, ◌||◌, not, Option, none, some, List, [], ◌∷◌, ◌++◌,
  if◌then◌else◌,
}
use pibot.Prelude.Int.{ℤ, pos, ltb_ℤ, pos_part, neg_part, sub_ℕ, neg}
use pibot.Python.Text.{Text, codes, text_eq, one_of, strip, strip_prefix, is_empty}
use pibot.Python.Result.{
  Result, ok, err, attribute_error, type_error, key_error, pibot_error, ◌>>=◌, ◌>>◌, or_raise,
}
use pibot.Python.Value.{Value, null, str, Runtime, is_space, text_of}
use pibot.Python.Tree.{
  Tree, leaf, list, dict, Items, no_items, item, Fields, no_fields, field, field_at, truth_of,
  int_of,
}

pub record BlockDevice (F O : Type 0) : Type 0 where
  pub node : Text
  pub size_bytes : ℤ
  pub model : Text
  pub removable : Bool
  pub internal : Bool
  pub mountpoints : List (Tree F O)
  pub is_system : Bool

-- Whether one text stands in another.
is_within : Text → Text → Bool
unfolding strip_prefix
is_within s [] = is_empty s
is_within s (c ∷ t) = elim (strip_prefix s (c ∷ t)) [ some rest ↦ true | none ↦ is_within s t ]

-- m == "/"
unfoldable pub is_root : {F O : Type 0} → Tree F O → Bool
unfolding text_eq
is_root (leaf (str s)) = text_eq s (codes "/")
is_root _ = false

-- "/" in mountpoints
unfoldable pub has_root : {F O : Type 0} → List (Tree F O) → Bool
unfolding is_root
has_root [] = false
has_root (m ∷ ms) = is_root m || has_root ms

-- any(m == "/" or m.startswith("/boot") for m in mounts)
unfoldable pub any_system : {F O : Type 0} → List (Tree F O) → Result Bool
unfolding text_eq strip_prefix
any_system [] = ok false
any_system (leaf (str s) ∷ ms) =
    let rest = any_system ms in
    if text_eq s (codes "/")
    then ok true
    else (elim (strip_prefix (codes "/boot") s) [ some t ↦ ok true | none ↦ rest ])
any_system (m ∷ ms) = err attribute_error

module _ {F O : Type 0} (py : Runtime F O) (show : Tree F O → Text) where
  -- The mountpoint of a node, if it has one that is not empty.
  unfoldable pub own_mount : Fields F O → List (Tree F O)
  unfolding field_at truth_of
  own_mount d = elim (field_at (codes "mountpoint") d) [
    | none ↦ []
    | some t ↦ if truth_of py t then t ∷ [] else []
  ]

  unfoldable mutual
    unfolding own_mount text_eq

    -- `_collect_mounts`
    pub collect_mounts : Tree F O → Result (List (Tree F O))
    collect_mounts (dict d) = children_in d >>= λ below. ok (own_mount d ++ below)
    collect_mounts (leaf v) = err attribute_error
    collect_mounts (list ts) = err attribute_error

    -- The mounts below the children, which stand under the first key "children".
    pub children_in : Fields F O → Result (List (Tree F O))
    children_in no_fields = ok []
    children_in (field k t d) =
        if text_eq k (codes "children") then mounts_below t else children_in d

    pub mounts_below : Tree F O → Result (List (Tree F O))
    mounts_below (list ts) = mounts_of_each ts
    mounts_below (dict no_fields) = ok []
    mounts_below (dict (field k t d)) = err attribute_error
    mounts_below (leaf (str [])) = ok []
    mounts_below (leaf (str (c ∷ s))) = err attribute_error
    mounts_below (leaf v) = err type_error

    pub mounts_of_each : Items F O → Result (List (Tree F O))
    mounts_of_each no_items = ok []
    mounts_of_each (item t ts) =
        collect_mounts t >>= λ ms. mounts_of_each ts >>= λ more. ok (ms ++ more)

  -- node.get("type") not in (None, "disk")
  is_skipped : Option (Tree F O) → Bool
  unfolding text_eq
  is_skipped none = false
  is_skipped (some (leaf null)) = false
  is_skipped (some (leaf (str s))) = not (text_eq s (codes "disk"))
  is_skipped (some t) = true

  -- (node.get("model") or "").strip()
  unfoldable pub model_of : Option (Tree F O) → Result Text
  unfolding strip is_space truth_of
  model_of none = ok []
  model_of (some (leaf (str s))) = ok (strip (is_space py) s)
  model_of (some t) = if truth_of py t then err attribute_error else ok []

  -- str(node['name']), as a text
  name_text : Tree F O → Text
  unfolding text_of
  name_text (leaf v) = text_of py v
  name_text t = show t

  -- int(node.get("size", 0))
  unfoldable pub size_of : Option (Tree F O) → Result ℤ
  unfolding int_of
  size_of none = ok (pos 0)
  size_of (some t) = int_of py t

  -- bool(node.get("rm", False))
  is_removable : Option (Tree F O) → Bool
  unfolding truth_of
  is_removable none = false
  is_removable (some t) = truth_of py t

  -- The device of a node that is not skipped.
  unfoldable pub device_of : Fields F O → Result (BlockDevice F O)
  unfolding collect_mounts field_at name_text size_of model_of is_removable any_system
  device_of d = do
    mounts ← collect_mounts (dict d)
    name ← or_raise (field_at (codes "name") d) key_error
    size ← size_of (field_at (codes "size") d)
    model ← model_of (field_at (codes "model") d)
    system ← any_system mounts
    ok (record {
      node = codes "/dev/" ++ name_text name;
      size_bytes = size;
      model = model;
      removable = is_removable (field_at (codes "rm") d);
      internal = false;
      mountpoints = mounts;
      is_system = system;
    })

  devices_in : Items F O → Result (List (BlockDevice F O))
  unfolding field_at is_skipped device_of
  devices_in no_items = ok []
  devices_in (item (dict d) ts) =
      let rest = devices_in ts in
      if is_skipped (field_at (codes "type") d)
      then rest
      else device_of d >>= λ dev. rest >>= λ devs. ok (dev ∷ devs)
  devices_in (item t ts) = err attribute_error

  -- `parse_linux_lsblk`, of what json.loads gives, with a list or nothing under "blockdevices"
  unfoldable pub parse_linux_lsblk : Tree F O → Result (List (BlockDevice F O))
  unfolding field_at devices_in
  parse_linux_lsblk (dict d) = elim (field_at (codes "blockdevices") d) [
    | none ↦ ok []
    | some (list ts) ↦ devices_in ts
    | some _ ↦ err type_error
  ]
  parse_linux_lsblk _ = err attribute_error

module _ {F O : Type 0} (py : Runtime F O) (lower : Text → Text) (ratio : ℤ → ℤ → F) where
  -- abs(a - b)
  distance : ℤ → ℤ → ℤ
  distance a b =
      let d = sub_ℕ (pos_part a + neg_part b) (neg_part a + pos_part b) in
      if ltb_ℤ d (pos 0) then neg d else d

  unfoldable pub check_size : ℤ → Option ℤ → Result (Unit {0})
  unfolding distance
  check_size size none = ok tt
  check_size size (some expected) =
      if ltb_ℤ (pos 0) expected && py.lt (py.literal 25 2) (ratio (distance size expected) expected)
      then err pibot_error
      else ok tt

  unfoldable pub check_model : Text → Option Text → Result (Unit {0})
  unfolding is_within
  check_model model none = ok tt
  check_model model (some expected) =
      if not (is_empty expected) && not (is_within (lower expected) (lower model))
      then err pibot_error
      else ok tt

  unfoldable pub assert_safe_target : BlockDevice F O → Option ℤ → Option Text → Result (Unit {0})
  unfolding has_root check_size check_model
  assert_safe_target d expected_size expected_model =
      if d.is_system || has_root d.mountpoints
      then err pibot_error
      else if d.internal
      then err pibot_error
      else check_size d.size_bytes expected_size >> check_model d.model expected_model

-- {d.node for d in before}
nodes_of : {F O : Type 0} → List (BlockDevice F O) → List Text
nodes_of [] = []
nodes_of (d ∷ ds) = d.node ∷ nodes_of ds

unfoldable pub unseen : {F O : Type 0} → List Text → List (BlockDevice F O) → List (BlockDevice F O)
unfolding one_of
unseen nodes [] = []
unseen nodes (d ∷ ds) = let rest = unseen nodes ds in if one_of d.node nodes then rest else d ∷ rest

unfoldable pub diff_new_device :
    {F O : Type 0} → List (BlockDevice F O) → List (BlockDevice F O) → Result (BlockDevice F O)
unfolding nodes_of unseen
diff_new_device before after = elim (unseen (nodes_of before) after) [
  | d ∷ [] ↦ ok d
  | _ ↦ err pibot_error
]
