-- ===== src/Examples.antt =====
-- The theorems at concrete inputs, with the small interpreter of Python/Value/Sample.antt.
mod Links
mod Fleet
mod Arms
mod Agents
use pibot.Prelude.{
  ℕ, ◌+◌, ◌*◌, ◌%◌, ◌<◌, ◌≡◌, ◌≢◌, refl, inl, true, false, some, List, [], ◌∷◌, ◌++◌, arith, All,
  ltb, ◌&&◌, not,
}
use pibot.Prelude.Int.{ℤ, pos}
use pibot.Python.Text.{codes, contains, text_eq}
use pibot.Python.Utf8.{Bytes, encode_utf8}
use pibot.Python.Number.{text_of_int, hex2}
use pibot.Python.Result.{Result, ok, err, decode_error, each}
use pibot.Python.Dict.{zip}
use pibot.Python.Value.{Value, int, float, real, num_lt, num_neg, to_float}
use pibot.Python.Value.Sample.{
  show, Float, finite, nan, sample, sample-IsTextual, sample-IsTruncating,
}
use pibot.Protocol.Crc.{crc8}
use pibot.Protocol.Crc.Detection.{crc8_detects_byte}
use pibot.Protocol.Sequence.{fresh, duplicate, observe, next}
use pibot.Protocol.Sequence.Loss.{skip, loss_seen}
use pibot.Protocol.Message.{schema_for, Message, message, command}
use pibot.Protocol.Codec.{encode, decode, ascii}
use pibot.Protocol.Ascii.Encode.{framed, marker_of, values_of, fmt}
use pibot.Protocol.Ascii.Tokens.{reading}
use pibot.Protocol.Ascii.RoundTrip.{keys_for, decode-encode-ascii}
use pibot.Protocol.Ascii.Corruption.{damaged_byte_refused}
use pibot.Protocol.Ascii.Errors.{hardened, decode-ascii-hardened}
use pibot.Protocol.Ascii.Stop.{stop_frame}
use pibot.Control.Safety.{Limits, bound, clamp_command, expired, is_motion}
use pibot.Control.Safety.Bounds.{Within, IsSane, IsBounded, bound-Within, clamp_command-IsBounded}
use pibot.Agent.Safety.{tick, Config, AgentSafety, init, submit, sent, trip_estop}
use pibot.Agent.Safety.Events.{Event, command_in, ticked, tripped, resumed, run, Through}
use pibot.Agent.Safety.Sends.{Extends}
use pibot.Agent.Safety.Latch.{latched_until_resume, sent_within_limits, LatchedFrame, BoundedFrame}
use pibot.Agent.Safety.Deadman.{ticks, deadman_stops}
use pibot.Agent.Safety.Rate.{rate_spaced}
use pibot.Arm.Gate.{JointLimit, GateResult, in_range, jpos, jmove, jvel, grip, home, move, tool}
use pibot.Arm.Gate.Exact.{
  IsSaneJoint, Refuses, Decided, latched-Refuses, jmove_exact, Carries, AngleAndSpeed,
}
use pibot.Arm.Gate.Move.{move_exact, all_ready, Clamped}

abbrev pub drive_message : Message Float Unit
drive_message =
    message command (pos 7) (codes "drive")
      ((codes "v", float (finite (pos 900))) ∷ (codes "w", float nan) ∷ [])

abbrev pub drive_frame : Result Bytes
drive_frame = encode sample drive_message ascii

-- 255 lost frames look like a duplicate.
loss_seen_example :
    (observe (observe fresh (pos (next fresh).1)).0 (pos (next (skip 255 (next fresh).0)).1)).1
    ≡ duplicate
unfolding fresh
loss_seen_example = loss_seen fresh fresh 255 (omega arith)

abbrev drive_bytes : Bytes
drive_bytes = codes ">7,drive,900.0,nan*86" ++ b'\n' ∷ []

drive_bytes_sent : encode sample drive_message ascii ≡ ok drive_bytes
unfolding encode each encode_utf8 text_of_int show hex2 crc8
drive_bytes_sent = refl

drive_values_of : values_of sample drive_message ≡ ok (float (finite (pos 900)) ∷ float nan ∷ [])
unfolding values_of text_eq each
drive_values_of = refl

decode-encode-ascii_example :
    decode sample drive_bytes ascii
    ≡ ok (
        message command
          (pos 7)
          (codes "drive")
          ((codes "v", float (finite (pos 900))) ∷ (codes "w", float nan) ∷ []))
unfolding show fmt keys_for schema_for zip reading text_eq
decode-encode-ascii_example =
    decode-encode-ascii sample sample-IsTextual drive_message 7
      (float (finite (pos 900)) ∷ float nan ∷ []) drive_bytes tt refl (omega arith)
      (unfold contains in refl) drive_values_of (tt, (tt, tt)) drive_bytes_sent

damaged_byte_refused_example :
    decode sample
      (framed
        (marker_of command)
        (codes "7,stop" ++ b'x' ∷ [])
        (crc8 (codes "7,stop" ++ b'p' ∷ [])))
      ascii
    ≡ err (decode_error (codes "crc"))
damaged_byte_refused_example =
    damaged_byte_refused sample sample-IsTextual command (codes "7,stop") [] b'p' b'x' tt
      (omega arith) tt (omega arith) (omega arith) (ground arith)

decode-ascii-hardened_example : hardened (decode sample (codes ">7,drive*zz") ascii) ≡ true
decode-ascii-hardened_example = decode-ascii-hardened sample (codes ">7,drive*zz")

abbrev pub example_limits : Limits Float
example_limits = record {
  max_v = real (finite (pos 2));
  max_w = real (finite (pos 3));
  servo_min = real (finite (pos 0));
  servo_max = real (finite (pos 180));
  max_pwm = pos 255;
}

example_limits-IsSane : IsSane sample example_limits
unfolding num_lt num_neg
example_limits-IsSane = record {
  sane_v = inl refl;
  sane_w = inl refl;
  sane_servo = inl refl;
  sane_pwm = omega arith;
}

bound-Within_example :
    Within sample
      (real (finite (pos 0)))
      (real (finite (pos 180)))
      (bound sample (real nan) (real (finite (pos 0))) (real (finite (pos 180))))
bound-Within_example =
    bound-Within sample (real nan) (real (finite (pos 0))) (real (finite (pos 180)))
      (unfold num_lt in inl refl)

abbrev clamped_message : Message Float Unit
clamped_message =
    message command (pos 7) (codes "drive")
      ((codes "v", float (finite (pos 2))) ∷ (codes "w", float (finite (pos 3))) ∷ [])

drive_clamped : clamp_command sample drive_message example_limits ≡ ok clamped_message
unfolding clamp_command
drive_clamped = refl

clamp_command-IsBounded_example : IsBounded sample example_limits clamped_message
clamp_command-IsBounded_example =
    clamp_command-IsBounded sample sample-IsTruncating example_limits example_limits-IsSane
      drive_message clamped_message drive_clamped

abbrev pub example_config : Config Float
example_config = record {
  limits = example_limits;
  deadman_ms = finite (pos 3000);
  max_rate_hz = finite (pos 1);
  encoding = ascii;
  clock = λ n. finite (pos (10 * n));
  up = λ n. ltb 1 n;
}

abbrev started : AgentSafety Float
started = init sample example_config

abbrev tripped_state : AgentSafety Float
tripped_state = (trip_estop sample example_config started).1

abbrev example_events : List (Event Float Unit)
example_events = command_in drive_message ∷ ticked ∷ tripped ∷ command_in drive_message ∷ []

tripped_latched : tripped_state.estop.latched ≡ true
unfolding trip_estop encode each encode_utf8 text_of_int init hex2 crc8
tripped_latched = refl

latched_until_resume_example :
    ((run sample example_config example_events tripped_state).estop.latched ≡ true)
    × ((frames : List Bytes) × ((run sample example_config example_events tripped_state).sent
          ≡ tripped_state.sent ++ frames)
        × Through (LatchedFrame sample example_config) example_events frames)
latched_until_resume_example =
    latched_until_resume sample example_config example_events tripped_state tt tripped_latched

sent_within_limits_example :
    Through
      (BoundedFrame sample example_config)
      (resumed ∷ example_events)
      (run sample example_config (resumed ∷ example_events) (init sample example_config)).sent
sent_within_limits_example =
    sent_within_limits sample sample-IsTruncating example_config example_limits-IsSane
      (resumed ∷ example_events)

started_overdue :
    (i : ℕ) → i < 3 → expired sample started.wd (example_config.clock (started.reads + i)) ≡ true
unfolding expired init
started_overdue i h = ground arith

started_link_down : (i : ℕ) → i < 2 → example_config.up (started.attempts + i) ≡ false
unfolding init
started_link_down i h = ground arith

deadman_stops_example :
    ((run sample example_config (ticks 4) (run sample example_config (ticks 3) started)).sent
      ≡ started.sent ++ stop_frame ((started.seq.next_seq + 2) % 256) ∷ [])
    × ((run sample example_config (ticks 4) (run sample example_config (ticks 3) started)).stopped
        ≡ true)
deadman_stops_example =
    deadman_stops sample example_config refl 2 4 started (unfold init in refl)
      (unfold init in omega arith) started_overdue started_link_down (unfold init in refl)

abbrev moving : AgentSafety Float
moving = record started {
  last_motion_t = some (finite (pos 0));
  min_interval = finite (pos 5);
  attempts = 2;
}

moving_sent : (submit sample example_config drive_message moving).0 ≡ ok sent
unfolding submit init encode each encode_utf8 text_of_int show hex2 crc8 clamp_command
moving_sent = refl

moving_sent_again :
    (submit sample example_config drive_message (
      run sample example_config
        (ticked ∷ [])
        (submit sample example_config drive_message moving).1)).0
    ≡ ok sent
unfolding submit run tick init encode each encode_utf8 text_of_int show hex2 crc8 clamp_command
    expired
moving_sent_again = refl

rate_spaced_example :
    (n : ℕ) × ((submit sample example_config drive_message moving).1.reads ≡ n + 1)
    × (sample.lt
          (sample.minus
            (example_config.clock
              (run sample example_config
                (ticked ∷ [])
                (submit sample example_config drive_message moving).1).reads)
            (example_config.clock n))
          moving.min_interval
        ≡ false)
rate_spaced_example =
    rate_spaced sample example_config drive_message drive_message (ticked ∷ []) moving
      (unfold is_motion in refl) (unfold is_motion in refl) tt refl moving_sent moving_sent_again

abbrev pub example_joint : JointLimit Float
example_joint = record {
  min_deg = real (finite (pos 10));
  max_deg = real (finite (pos 170));
  max_dps = real (finite (pos 60));
}

abbrev pub example_joints : List (JointLimit Float)
example_joints = example_joint ∷ example_joint ∷ []

example_joint-IsSane : IsSaneJoint sample example_joint
unfolding num_lt num_neg
example_joint-IsSane = record { sane_deg = inl refl; sane_speed = inl refl; sane_jog = inl refl }

pub example_joints-IsSane : All (IsSaneJoint sample) example_joints
example_joints-IsSane = (example_joint-IsSane, (example_joint-IsSane, tt))

abbrev example_targets : List (ℤ × Value Float Unit)
example_targets = (pos 1, int (pos 200)) ∷ (pos 0, float nan) ∷ []

move_exact_example :
    (r : GateResult Float) × (move sample example_joints example_targets
        (λ j. true)
        (finite (pos 2))
        false
        (λ j. true)
      ≡ ok r)
    × Decided
        (all_ready sample example_joints (λ j. true) (λ j. true) example_targets)
        r
        (Clamped sample example_joints example_targets r.targets)
move_exact_example =
    move_exact sample example_joints example_joints-IsSane example_targets (λ j. true)
      (finite (pos 2)) false (λ j. true)
      ((finite (pos 200), unfold to_float in refl), ((nan, unfold to_float in refl), tt)) refl

jmove_exact_example :
    (r : GateResult Float) × (jmove sample example_joints
        (pos 1)
        (int (pos 200))
        (float nan)
        false
        (λ j. true)
      ≡ ok r)
    × Decided (in_range example_joints (pos 1) && (not false && true)) r (
        Carries sample example_joints example_joints-IsSane
          (pos 1)
          (AngleAndSpeed sample example_joints example_joints-IsSane)
          r)
jmove_exact_example =
    jmove_exact sample example_joints example_joints-IsSane (pos 1) (int (pos 200)) (float nan)
      false (λ j. true) (finite (pos 200)) nan (unfold to_float in refl) (unfold to_float in refl)

latched-Refuses_example :
    Refuses (jpos sample example_joints (pos 1) (int (pos 90)) true (λ j. true))
    × Refuses (jmove sample example_joints (pos 1) (int (pos 90)) (int (pos 5)) true (λ j. true))
    × Refuses (jvel sample example_joints (pos 1) (int (pos 5)) true)
    × Refuses (grip sample example_joints (int (pos 90)) true)
    × ((tool sample example_joints true).accepted ≡ false)
    × ((home sample example_joints (pos 1) true).accepted ≡ false)
    × Refuses
        (move sample example_joints example_targets (λ j. true) (finite (pos 2)) true (λ j. true))
latched-Refuses_example =
    latched-Refuses sample example_joints (pos 1) (int (pos 90)) (int (pos 5)) (λ j. true)
      (λ j. true) example_targets (finite (pos 2))
