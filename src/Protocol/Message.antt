-- ===== src/Protocol/Message.antt =====
-- Messages and the argument schemas of pibot/protocol/codec.py.
use pibot.Prelude.{Bool, true, false, Option, List, [], ◌∷◌}
use pibot.Prelude.Int.{ℤ}
use pibot.Python.Text.{Text, codes}
use pibot.Python.Dict.{Dict, get}
use pibot.Python.Value.{Value}

pub data MessageType : Type 0 where
  command telemetry ack nak : MessageType

pub record Message (F O : Type 0) : Type 0 where
  pub type : MessageType
  pub seq : ℤ
  pub name : Text
  pub args : Dict (Value F O)
  pub reason : Text  -- NAK only

module _ {F O : Type 0} where
  -- Message(type, seq, name, args)
  abbrev pub message : MessageType → ℤ → Text → Dict (Value F O) → Message F O
  message t n name args = record { type = t; seq = n; name = name; args = args; reason = [] }

  -- Message(ACK, seq)
  abbrev pub ack_of : ℤ → Message F O
  ack_of n = message ack n [] []

  -- Message(NAK, seq, reason=…)
  abbrev pub nak_of : ℤ → Text → Message F O
  nak_of n why = record { type = nak; seq = n; name = []; args = []; reason = why }

  unfoldable pub is_command : Message F O → Bool
  is_command m = elim m.type [ command ↦ true | _ ↦ false ]

unfoldable pub command_args : Dict (List Text)
command_args =
    (codes "drive", codes "v" ∷ codes "w" ∷ [])
    ∷ (codes "motor", codes "id" ∷ codes "pwm" ∷ [])
    ∷ (codes "servo", codes "id" ∷ codes "deg" ∷ [])
    ∷ (codes "stop", [])
    ∷ (codes "estop", [])
    ∷ (codes "ping", [])
    ∷ (codes "set", codes "param" ∷ codes "value" ∷ [])
    ∷ (codes "jpos", codes "id" ∷ codes "deg" ∷ [])
    ∷ (codes "jmove", codes "id" ∷ codes "deg" ∷ codes "dps" ∷ [])
    ∷ (codes "jvel", codes "id" ∷ codes "dps" ∷ [])
    ∷ (codes "jstop", codes "id" ∷ [])
    ∷ (codes "home", codes "id" ∷ [])
    ∷ (codes "enable", codes "on" ∷ [])
    ∷ (codes "grip", codes "deg" ∷ [])
    ∷ (codes "tool", codes "on" ∷ [])
    ∷ []

unfoldable pub telemetry_fields : Dict (List Text)
telemetry_fields =
    (codes "state", codes "v" ∷ codes "w" ∷ [])
    ∷ (codes "battery", codes "volts" ∷ [])
    ∷ (codes "current", codes "amps" ∷ [])
    ∷ (codes "encoder", codes "left" ∷ codes "right" ∷ [])
    ∷ (
      codes "imu",
      codes "ax" ∷ codes "ay" ∷ codes "az" ∷ codes "gx" ∷ codes "gy" ∷ codes "gz" ∷ [],
    )
    ∷ (codes "range", codes "mm" ∷ [])
    ∷ (codes "event", codes "code" ∷ [])
    ∷ (codes "grip", codes "deg" ∷ codes "tool" ∷ [])
    ∷ []

-- The schema of a message; an ack or nak is never looked up.
unfoldable pub schema_for : MessageType → Text → Option (List Text)
unfolding command_args telemetry_fields get
schema_for command name = get name command_args
schema_for _ name = get name telemetry_fields
