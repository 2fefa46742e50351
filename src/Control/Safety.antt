-- ===== src/Control/Safety.antt =====
-- pibot/control/safety.py: the limits on commands, the latched stop and the deadman timer.
pub mod Bounds
use pibot.Prelude.{
  ℕ, Bool, true, false, ◌&&◌, ◌||◌, not, Option, none, some, List, [], ◌∷◌, if◌then◌else◌,
}
use pibot.Prelude.Int.{ℤ, pos, negsuc, neg}
use pibot.Python.Text.{Text, codes, text_eq, one_of}
use pibot.Python.Result.{Result, ok, err, key_error, or_raise, ◌>>=◌}
use pibot.Python.Dict.{Dict, get}
use pibot.Python.Value.{
  Value, int, Num, whole, real, Runtime, to_float, num_lt, num_max, num_min, num_neg, num_trunc,
  of_num,
}
use pibot.Protocol.Message.{Message, message, is_command}

abbrev pub safe_commands : List Text
safe_commands = codes "stop" ∷ codes "estop" ∷ codes "ping" ∷ []

abbrev pub motion_commands : List Text
motion_commands = codes "drive" ∷ codes "motor" ∷ codes "servo" ∷ []

pub record Limits (F : Type 0) : Type 0 where
  pub max_v : Num F
  pub max_w : Num F
  pub servo_min : Num F
  pub servo_max : Num F
  pub max_pwm : ℤ

module _ {F O : Type 0} (py : Runtime F O) where
  -- `_bound`
  unfoldable pub bound : Num F → Num F → Num F → Num F
  unfolding num_max num_min
  bound value low high = num_max py low (num_min py high value)

  -- args[key], as a float
  unfoldable pub number_at : Text → Dict (Value F O) → Result F
  unfolding get to_float
  number_at k args = or_raise (get k args) key_error >>= to_float py

  unfoldable pub clamp_drive : Dict (Value F O) → Limits F → Result (Dict (Value F O))
  unfolding number_at bound num_neg of_num
  clamp_drive args limits = do
    v ← number_at (codes "v") args
    w ← number_at (codes "w") args
    ok (
        (codes "v", of_num (bound (real v) (num_neg py limits.max_v) limits.max_v))
        ∷ (codes "w", of_num (bound (real w) (num_neg py limits.max_w) limits.max_w))
        ∷ [])

  unfoldable pub clamp_servo : Dict (Value F O) → Limits F → Result (Dict (Value F O))
  unfolding number_at bound of_num get
  clamp_servo args limits = do
    joint ← or_raise (get (codes "id") args) key_error
    deg ← number_at (codes "deg") args
    ok (
        (codes "id", joint)
        ∷ (codes "deg", of_num (bound (real deg) limits.servo_min limits.servo_max))
        ∷ [])

  unfoldable pub clamp_motor : Dict (Value F O) → Limits F → Result (Dict (Value F O))
  unfolding number_at bound num_trunc get
  clamp_motor args limits = do
    x ← number_at (codes "pwm") args
    pwm ← num_trunc py (bound (real x) (whole (neg limits.max_pwm)) (whole limits.max_pwm))
    motor ← or_raise (get (codes "id") args) key_error
    ok ((codes "id", motor) ∷ (codes "pwm", int pwm) ∷ [])

  unfoldable pub clamp_args : Message F O → Limits F → Result (Message F O)
  unfolding clamp_drive clamp_servo clamp_motor text_eq
  clamp_args m limits =
      if text_eq m.name (codes "drive")
      then (do args ← clamp_drive m.args limits; ok (message m.type m.seq m.name args))
      else if text_eq m.name (codes "servo")
      then (do args ← clamp_servo m.args limits; ok (message m.type m.seq m.name args))
      else if text_eq m.name (codes "motor")
      then (do args ← clamp_motor m.args limits; ok (message m.type m.seq m.name args))
      else ok m

  -- `clamp_command`
  unfoldable pub clamp_command : Message F O → Limits F → Result (Message F O)
  unfolding clamp_args is_command
  clamp_command m limits = if is_command m then clamp_args m limits else ok m

-- `class EStop`: the latch. trip() and resume() set it and clear it.
pub record EStop : Type 0 where
  pub latched : Bool

abbrev pub trip : EStop → EStop
trip s = record { latched = true }

abbrev pub resume : EStop → EStop
resume s = record { latched = false }

module _ {F O : Type 0} where
  -- A command that actuates.
  unfoldable pub is_motion : Message F O → Bool
  unfolding one_of is_command
  is_motion m = is_command m && one_of m.name motion_commands

  unfoldable pub allows : EStop → Message F O → Bool
  unfolding one_of is_command
  allows s m =
      if not s.latched
      then true
      else if not (is_command m)
      then true
      else not (one_of m.name motion_commands) || one_of m.name safe_commands

-- `class Watchdog`: the window in seconds, and when it was fed last.
pub record Watchdog (F : Type 0) : Type 0 where
  pub deadman : F
  pub last : F

module _ {F O : Type 0} (py : Runtime F O) where
  -- The timer made at a time, for a window in milliseconds.
  unfoldable pub new_watchdog : F → F → Watchdog F
  new_watchdog deadman_ms now = record {
    deadman = py.divide deadman_ms (py.literal 1000 0);
    last = now;
  }

  abbrev pub feed : Watchdog F → F → Watchdog F
  feed w now = record w { last = now }

  unfoldable pub expired : Watchdog F → F → Bool
  expired w now = py.lt w.deadman (py.minus now w.last)
