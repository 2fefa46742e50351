-- ===== src/Examples/Arms.antt =====
-- The arm's boards and programs: the theorems at concrete inputs.
use pibot.Prelude.{◌≡◌, refl, ℕ, ◌<◌, ◌==◌, none, some, List, [], ◌∷◌, ◌++◌, map, if◌then◌else◌}
use pibot.Prelude.Int.{pos}
use pibot.Python.Text.{Text, codes, ascii_space}
use pibot.Python.Result.{ok, err, transport_error, each}
use pibot.Python.Utf8.{encode_utf8}
use pibot.Python.Number.{text_of_int, hex2}
use pibot.Protocol.Crc.{crc8}
use pibot.Python.Dict.{merge}
use pibot.Python.Sequence.{index, get_at, range, replicate}
use pibot.Python.Value.{int}
use pibot.Python.Value.Sample.{Float, finite, sample}
use pibot.Python.Tree.{
  Tree, leaf, list, dict, no_items, item, Fields, no_fields, field, text_leaf, float_leaf,
}
use pibot.Protocol.Sequence.{fresh}
use pibot.Protocol.Codec.{ascii}
use pibot.Arm.Boards.{Boards, Event, opened, closed, recorded}
use pibot.Arm.Manager.{ArmManager, Setup, JointRef, linear_joint_map, joint_send, estop, open_all}
use pibot.Arm.Manager.Routing.{events, Sent, SentEach, joint_send-routes, estop_reaches}
use pibot.Arm.Manager.Opening.{open_all_undone}
use pibot.Arm.Programs.{Program, program_from, no_steps, then_step, loop_step, grip_step}
use pibot.Arm.Programs.Expand.{expanded_steps}
use pibot.Arm.Programs.Playable.{Played, program_from-Played}

-- Boards that take everything, but for one that does not open.
abbrev pub boards_but : ℕ → Boards Float Unit
boards_but bad = record {
  open_board = λ k w. if k == bad then (err transport_error, w) else (ok tt, w);
  close_board = λ k w. (ok tt, w);
  send_to = λ k frame w. (ok tt, w);
  receive = λ k timeout w. (ok none, w);
}

-- Two boards with three joints each.
abbrev example_setup : Setup
example_setup = record {
  count = 2;
  joints = linear_joint_map (3 ∷ 3 ∷ []);
  encoding = ascii;
  gripper_board = pos 0;
}

unfoldable idle : ArmManager Float (Unit × List Event)
unfolding replicate
idle = record { seqs = replicate 2 fresh; gripper_state = none; world = (tt, []) }

unfoldable after_jog : ArmManager Float (Unit × List Event)
unfolding joint_send
after_jog =
    (joint_send sample (recorded (boards_but 9)) example_setup (pos 4) (codes "jstop") [] idle).1

jog_sent :
    joint_send sample (recorded (boards_but 9)) example_setup (pos 4) (codes "jstop") [] idle
    ≡ (ok tt, after_jog)
unfolding joint_send idle after_jog linear_joint_map recorded each encode_utf8 text_of_int fresh
    hex2 crc8
jog_sent = refl

joint_send-routes_example :
    (ref : JointRef) × (get_at (linear_joint_map (3 ∷ 3 ∷ [])) (pos 4) ≡ ok ref)
    × (k : ℕ) × (index 2 ref.board ≡ some k)
    × (e : Event) × (events after_jog ≡ events idle ++ e ∷ [])
    × Sent sample
        (boards_but 9)
        example_setup
        (codes "jstop")
        (merge ((codes "id", int ref.channel) ∷ []) [])
        k
        e
joint_send-routes_example =
    joint_send-routes sample (boards_but 9) example_setup (pos 4) (codes "jstop") [] idle after_jog
      jog_sent

unfoldable after_estop : ArmManager Float (Unit × List Event)
unfolding estop
after_estop = (estop sample (recorded (boards_but 9)) example_setup idle).1

estop_sent : estop sample (recorded (boards_but 9)) example_setup idle ≡ (ok tt, after_estop)
unfolding estop idle after_estop recorded each encode_utf8 text_of_int fresh hex2 crc8
estop_sent = refl

estop_reaches_example :
    (es : List Event) × (events after_estop ≡ events idle ++ es)
    × SentEach sample (boards_but 9) example_setup (codes "estop") [] (range 0 2) es
estop_reaches_example =
    estop_reaches sample (boards_but 9) example_setup idle after_estop estop_sent

unfoldable after_failure : ArmManager Float (Unit × List Event)
unfolding open_all
after_failure = (open_all sample (recorded (boards_but 1)) example_setup idle).1

not_opened :
    open_all sample (recorded (boards_but 1)) example_setup idle
    ≡ (err transport_error, after_failure)
unfolding open_all idle after_failure recorded
not_opened = refl

open_all_undone_example :
    (i : ℕ) × (i < 2)
    × (events after_failure ≡ (events idle ++ map opened (range 0 i)) ++ map closed (range 0 i))
open_all_undone_example =
    open_all_undone sample (boards_but 1) example_setup idle after_failure transport_error
      not_opened

-- A program that closes the gripper twice.
abbrev example_program : Fields Float Unit
example_program = field (codes "name") (text_leaf (codes "wave")) (
    field (codes "steps")
      (list (
        item
          (dict (
            field (codes "kind") (text_leaf (codes "loop")) (
              field (codes "count") (leaf (int (pos 2))) (
                field (codes "steps")
                  (list (
                    item
                      (dict (
                        field (codes "kind") (text_leaf (codes "grip"))
                          (field (codes "deg") (float_leaf (finite (pos 30))) no_fields)))
                      no_items))
                  no_fields))))
          no_items))
      no_fields)

abbrev show_none : Tree Float Unit → Text
show_none t = []

abbrev wave : Program Float
wave = record {
  name = codes "wave";
  steps = then_step (loop_step (pos 2) (then_step (grip_step (finite (pos 30))) no_steps)) no_steps;
  created = finite (pos 0);
}

wave_read : program_from sample show_none (finite (pos 0)) example_program ≡ ok wave
unfolding program_from ascii_space
wave_read = refl

program_from-Played_example : Played (expanded_steps wave)
program_from-Played_example =
    program_from-Played sample show_none (finite (pos 0)) example_program wave wave_read
