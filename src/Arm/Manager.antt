-- ===== src/Arm/Manager.antt =====
-- `class ArmManager` of pibot/arm/manager.py: its construction, lifecycle and commands. The
-- manager's sequence numbers, the last state of the gripper and the boards change; the rest is set
-- when it is made.
pub mod Moves
pub mod Telemetry
pub mod Routing
pub mod Written
pub mod Opening
use pibot.Prelude.{
  ℕ, zero, suc, Bool, true, false, ◌&&◌, ◌||◌, not, Option, none, some, List, [], ◌∷◌, ◌++◌, length,
  get_elem?, if◌then◌else◌,
}
use pibot.Prelude.Int.{ℤ, pos, ltb_ℤ}
use pibot.Python.Text.{Text, codes}
use pibot.Python.Utf8.{Bytes}
use pibot.Python.Result.{Result, ok, err, value_error, index_error, or_raise}
use pibot.Python.Action.{Action, ◌>>=◌, ◌>>◌, pure, lift, read, write, suppress, for_each}
use pibot.Python.Dict.{Dict, merge}
use pibot.Python.Sequence.{index, get_at, set_at, replicate, range}
use pibot.Python.Value.{Value, int, float, Runtime, to_float}
use pibot.Protocol.Message.{Message, message, command}
use pibot.Protocol.Sequence.{SeqTracker, fresh, next}
use pibot.Protocol.Codec.{encode}
use pibot.Arm.Boards.{Boards}

pub record JointRef : Type 0 where
  pub board : ℤ
  pub channel : ℤ

pub record GripperState (F : Type 0) : Type 0 where
  pub deg : F
  pub tool_on : Bool

refs_on : ℕ → List ℕ → List JointRef
refs_on board [] = []
refs_on board (channel ∷ channels) =
    record { board = pos board; channel = pos channel } ∷ refs_on board channels

joints_from : ℕ → List ℕ → List JointRef
unfolding refs_on range
joints_from board [] = []
joints_from board (count ∷ counts) = refs_on board (range 0 count) ++ joints_from (suc board) counts

-- `linear_joint_map`, for counts that are not negative
unfoldable pub linear_joint_map : List ℕ → List JointRef
unfolding joints_from
linear_joint_map per_board = joints_from 0 per_board

-- any(j.board >= len(transports) for j in joints)
any_beyond : ℕ → List JointRef → Bool
any_beyond count [] = false
any_beyond count (j ∷ js) = not (ltb_ℤ j.board (pos count)) || any_beyond count js

pub record ArmManager (F W : Type 0) : Type 0 where
  pub seqs : List SeqTracker
  pub gripper_state : Option (GripperState F)
  pub world : W

-- What is set when a manager is made.
pub record Setup : Type 0 where
  pub count : ℕ  -- len(transports)
  pub joints : List JointRef
  pub encoding : Text
  pub gripper_board : ℤ

-- `__init__`
unfoldable pub new_manager : {F W : Type 0} → Setup → W → Result (ArmManager F W)
unfolding any_beyond replicate fresh
new_manager s w =
    if any_beyond s.count s.joints
    then err value_error
    else if not (not (ltb_ℤ s.gripper_board (pos 0)) && ltb_ℤ s.gripper_board (pos s.count))
    then err value_error
    else ok (record { seqs = replicate s.count fresh; gripper_state = none; world = w })

module _ {F O W : Type 0} (py : Runtime F O) (boards : Boards F W) (s : Setup) where
  -- What the boards do within the manager.
  abbrev pub on_boards : {A : Type 0} → Action W A → Action (ArmManager F W) A
  on_boards call m = let (r, w) = call m.world in (r, record m { world = w })

  unfoldable pub close_each : List ℕ → Action (ArmManager F W) (Unit {0})
  unfolding for_each
  close_each ks = for_each (λ k. suppress (on_boards (boards.close_board k))) ks

  -- What follows the opening of board k.
  unfoldable pub after_open :
      ℕ
      → Action (ArmManager F W) (Unit {0})
      → Result (Unit {0}) × ArmManager F W
      → Result (Unit {0}) × ArmManager F W
  unfolding close_each range
  after_open k rest (ok u, m) = rest m
  after_open k rest (err why, m) = (err why, (close_each (range 0 k) m).1)

  -- The loop of `open`, with so many boards left, from board k on.
  unfoldable pub open_from : ℕ → ℕ → Action (ArmManager F W) (Unit {0})
  unfolding after_open
  open_from zero k m = (ok tt, m)
  open_from (suc left) k m =
      after_open k (open_from left (suc k)) (on_boards (boards.open_board k) m)

  unfoldable pub open_all : Action (ArmManager F W) (Unit {0})
  unfolding open_from
  open_all = open_from s.count 0

  unfoldable pub close_all : Action (ArmManager F W) (Unit {0})
  unfolding close_each range
  close_all = close_each (range 0 s.count)

  -- `_send`
  unfoldable pub send : ℤ → Text → Dict (Value F O) → Action (ArmManager F W) (Unit {0})
  unfolding index set_at next encode
  send board name args = do
    m ← read
    k ← lift (or_raise (index s.count board) index_error)
    tracker ← lift (or_raise (get_elem? m.seqs k) index_error)
    let (tracker', n) = next tracker
    write (record m { seqs = set_at k tracker' m.seqs })
    frame ← lift (encode py (message command (pos n) name args) s.encoding)
    on_boards (boards.send_to k frame)

  -- `_joint_send`
  unfoldable pub joint_send : ℤ → Text → Dict (Value F O) → Action (ArmManager F W) (Unit {0})
  unfolding get_at send merge
  joint_send joint name args = do
    ref ← lift (get_at s.joints joint)
    send ref.board name (merge ((codes "id", int ref.channel) ∷ []) args)

  unfoldable pub jpos : ℤ → Value F O → Action (ArmManager F W) (Unit {0})
  unfolding to_float joint_send
  jpos joint deg = do
    deg' ← lift (to_float py deg)
    joint_send joint (codes "jpos") ((codes "deg", float deg') ∷ [])

  unfoldable pub jmove : ℤ → Value F O → Value F O → Action (ArmManager F W) (Unit {0})
  unfolding to_float joint_send
  jmove joint deg dps = do
    deg' ← lift (to_float py deg)
    dps' ← lift (to_float py dps)
    joint_send joint (codes "jmove") ((codes "deg", float deg') ∷ (codes "dps", float dps') ∷ [])

  unfoldable pub jvel : ℤ → Value F O → Action (ArmManager F W) (Unit {0})
  unfolding to_float joint_send
  jvel joint dps = do
    dps' ← lift (to_float py dps)
    joint_send joint (codes "jvel") ((codes "dps", float dps') ∷ [])

  unfoldable pub jstop : ℤ → Action (ArmManager F W) (Unit {0})
  unfolding joint_send
  jstop joint = joint_send joint (codes "jstop") []

  unfoldable pub home : ℤ → Action (ArmManager F W) (Unit {0})
  unfolding joint_send
  home joint = joint_send joint (codes "home") []

  unfoldable pub grip : Value F O → Action (ArmManager F W) (Unit {0})
  unfolding to_float send
  grip deg = do
    deg' ← lift (to_float py deg)
    send s.gripper_board (codes "grip") ((codes "deg", float deg') ∷ [])

  unfoldable pub tool : Bool → Action (ArmManager F W) (Unit {0})
  unfolding send
  tool on =
      send s.gripper_board (codes "tool")
        ((codes "on", float (py.literal (if on then 10 else 0) 1)) ∷ [])

  -- for board in range(len(self._t)): self._send(board, …)
  unfoldable pub broadcast : Text → Dict (Value F O) → Action (ArmManager F W) (Unit {0})
  unfolding for_each send range
  broadcast name args = for_each (λ k. send (pos k) name args) (range 0 s.count)

  unfoldable pub estop : Action (ArmManager F W) (Unit {0})
  unfolding broadcast
  estop = broadcast (codes "estop") []

  unfoldable pub clear_estop : Action (ArmManager F W) (Unit {0})
  unfolding broadcast
  clear_estop =
      broadcast (codes "set") ((codes "param", int (pos 0)) ∷ (codes "value", int (pos 0)) ∷ [])

  unfoldable pub enable : Bool → Action (ArmManager F W) (Unit {0})
  unfolding broadcast
  enable on = broadcast (codes "enable") ((codes "on", int (pos (if on then 1 else 0))) ∷ [])
