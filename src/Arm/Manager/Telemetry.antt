-- ===== src/Arm/Manager/Telemetry.antt =====
-- `positions` of pibot/arm/manager.py. A board may send without end; the loop that drains it is
-- followed for so many frames.
use pibot.Prelude.{
  ℕ, zero, suc, Bool, true, false, ◌&&◌, Option, none, some, List, [], ◌∷◌, ◌==◌, length,
  if◌then◌else◌,
}
use pibot.Prelude.Int.{ℤ, pos, negsuc, ltb_ℤ}
use pibot.Python.Text.{codes, text_eq}
use pibot.Python.Result.{Result, ok, err, decode_error, key_error, each}
use pibot.Python.Action.{Action, ◌>>=◌, pure, lift}
use pibot.Python.Dict.{get, values}
use pibot.Python.Sequence.{get_at, range}
use pibot.Python.Value.{Runtime, to_float, truth}
use pibot.Protocol.Message.{Message, MessageType, telemetry}
use pibot.Protocol.Codec.{decode}
use pibot.Arm.Boards.{Boards}
use pibot.Arm.Manager.{ArmManager, GripperState, JointRef, Setup, on_boards}

-- `board_pos`, as its items
abbrev pub BoardPos : Type 0 → Type 0
BoardPos F = List (ℕ × List F)

module _ {F : Type 0} where
  -- board_pos.get(board); no key is negative
  unfoldable pub on_board : ℤ → BoardPos F → Option (List F)
  on_board (negsuc n) d = none
  on_board (pos board) [] = none
  on_board (pos board) ((k, vals) ∷ d) = if k == board then some vals else on_board (pos board) d

  -- board_pos[board] = vals
  put_board : ℕ → List F → BoardPos F → BoardPos F
  put_board board vals [] = (board, vals) ∷ []
  put_board board vals ((k, old) ∷ d) =
      let rest = put_board board vals d in if k == board then (k, vals) ∷ d else (k, old) ∷ rest

  -- The angle of a joint, if its board has reported one.
  unfoldable pub angle_of : BoardPos F → JointRef → Result (Option F)
  unfolding on_board get_at
  angle_of d ref = elim (on_board ref.board d) [
    | none ↦ ok none
    | some vals ↦
        if ltb_ℤ ref.channel (pos (length vals))
        then (elim (get_at vals ref.channel) [ ok x ↦ ok (some x) | err why ↦ err why ])
        else ok none
  ]

  keep : ℕ → Option F → List (ℕ × F) → List (ℕ × F)
  keep joint none out = out
  keep joint (some x) out = (joint, x) ∷ out

  -- The loop over the joints, from a number on.
  unfoldable pub rekey : BoardPos F → ℕ → List JointRef → Result (List (ℕ × F))
  unfolding angle_of keep
  rekey d joint [] = ok []
  rekey d joint (ref ∷ refs) = elim (angle_of d ref) [
    | err why ↦ err why
    | ok angle ↦ elim (rekey d (suc joint) refs) [
      | err why ↦ err why
      | ok out ↦ ok (keep joint angle out)
    ]
  ]

is_telemetry : MessageType → Bool
is_telemetry telemetry = true
is_telemetry _ = false

module _ {F O W : Type 0} (py : Runtime F O) (boards : Boards F W) (s : Setup) where
  gripper_of : Message F O → Result (GripperState F)
  unfolding get to_float truth
  gripper_of msg = elim (get (codes "deg") msg.args) [
    | none ↦ err key_error
    | some deg ↦ elim (to_float py deg) [
      | err why ↦ err why
      | ok deg' ↦ elim (get (codes "tool") msg.args) [
        | none ↦ ok (record { deg = deg'; tool_on = false })
        | some on ↦ ok (record { deg = deg'; tool_on = truth py on })
      ]
    ]
  ]

  -- What a message from a board changes.
  unfoldable pub take_message : ℕ → Message F O → BoardPos F → Action (ArmManager F W) (BoardPos F)
  unfolding text_eq each to_float values gripper_of put_board is_telemetry
  take_message board msg d =
      if is_telemetry msg.type && text_eq msg.name (codes "joints")
      then (lift (each (to_float py) (values msg.args)) >>= λ vals. pure (put_board board vals d))
      else if is_telemetry msg.type && text_eq msg.name (codes "grip")
      then (lift (gripper_of msg) >>= λ g m. (ok d, record m { gripper_state = some g }))
      else pure d

  -- A frame that does not decode is skipped.
  take_frame : ℕ → Result (Message F O) → BoardPos F → Action (ArmManager F W) (BoardPos F)
  unfolding take_message
  take_frame board (ok msg) d = take_message board msg d
  take_frame board (err (decode_error why)) d = pure d
  take_frame board (err why) d = lift (err why)

  -- The frames of a board, so many at most, the first one within the timeout.
  unfoldable pub drain_board : ℕ → ℕ → F → BoardPos F → Action (ArmManager F W) (BoardPos F)
  unfolding take_frame decode
  drain_board zero board timeout d = pure d
  drain_board (suc frames) board timeout d =
      on_boards py boards s (boards.receive board timeout) >>= λ found. elim found [
        | none ↦ pure d
        | some frame ↦ take_frame board (decode py frame s.encoding) d >>= λ d'.
            drain_board frames board (py.literal 0 0) d'
      ]

  drain_boards : ℕ → F → List ℕ → BoardPos F → Action (ArmManager F W) (BoardPos F)
  unfolding drain_board
  drain_boards frames timeout [] d = pure d
  drain_boards frames timeout (board ∷ rest) d =
      drain_board frames board timeout d >>= λ d'. drain_boards frames timeout rest d'

  unfoldable pub positions : ℕ → F → Action (ArmManager F W) (List (ℕ × F))
  unfolding drain_boards rekey range
  positions frames timeout = do
    d ← drain_boards frames timeout (range 0 s.count) []
    lift (rekey d 0 s.joints)
