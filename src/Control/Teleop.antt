-- ===== src/Control/Teleop.antt =====
-- pibot/control/teleop.py: keys to commands, and the loop that sends them. `lower` is str.lower, and
-- `keys` what the source of keys gives at each tick. The pauses, the callback of each tick and the
-- reading of the terminal are left out.
use pibot.Prelude.{ℕ, zero, suc, Option, none, some, [], ◌∷◌, if◌then◌else◌}
use pibot.Python.Text.{Text, codes, one_of}
use pibot.Python.Action.{◌>>=◌, ◌>>◌, pure}
use pibot.Python.Value.{Runtime}
use pibot.Python.Tree.{Tree, no_fields, field, float_leaf}
use pibot.Control.Client.{Web, Call, send_command, estop}

pub data KeyAction (F : Type 0) : Type 0 where
  go : F → F → KeyAction F
  halt : KeyAction F
  latch : KeyAction F
  quit : KeyAction F

-- `key or ""`
abbrev pub key_text : Option Text → Text
key_text none = []
key_text (some key) = key

module _ {F O : Type 0} (py : Runtime F O) (lower : Text → Text) (speed turn : F) where
  unfoldable pub key_to_action : Option Text → KeyAction F
  unfolding one_of
  key_to_action key =
      let k = lower (key_text key) in
      if one_of k (codes "w" ∷ codes "up" ∷ [])
      then go speed (py.literal 0 0)
      else if one_of k (codes "s" ∷ codes "down" ∷ [])
      then go (py.negate speed) (py.literal 0 0)
      else if one_of k (codes "a" ∷ codes "left" ∷ [])
      then go (py.literal 0 0) turn
      else if one_of k (codes "d" ∷ codes "right" ∷ [])
      then go (py.literal 0 0) (py.negate turn)
      else if one_of k (codes " " ∷ codes "space" ∷ [])
      then latch
      else if one_of k (codes "q" ∷ (3 ∷ []) ∷ (27 ∷ []) ∷ [])
      then quit
      else halt

module _ {F O W : Type 0} (py : Runtime F O) (web : Web F O W) where
  unfoldable pub apply_action : KeyAction F → Call web (Option (Tree F O))
  unfolding send_command estop
  apply_action (go v w) =
      send_command web (codes "drive")
        (some (field (codes "v") (float_leaf v) (field (codes "w") (float_leaf w) no_fields)))
      >>= λ reply. pure (some reply)
  apply_action halt =
      send_command web (codes "stop") (some no_fields) >>= λ reply. pure (some reply)
  apply_action latch = estop web >>= λ reply. pure (some reply)
  apply_action quit = pure none

  -- A tick of the loop, before the rest of them.
  unfoldable pub tick : KeyAction F → Call web (Unit {0}) → Call web (Unit {0})
  unfolding send_command apply_action
  tick quit rest = send_command web (codes "stop") (some no_fields) >> pure tt
  tick action rest = apply_action action >> rest

  -- `run_teleop`, for so many ticks at most, from a number on
  unfoldable pub run_teleop :
      ℕ → (Text → Text) → F → F → (ℕ → Option Text) → ℕ → Call web (Unit {0})
  unfolding key_to_action tick
  run_teleop zero lower speed turn keys n = pure tt
  run_teleop (suc ticks) lower speed turn keys n =
      tick (key_to_action py lower speed turn (keys n))
        (run_teleop ticks lower speed turn keys (suc n))
