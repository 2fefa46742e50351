-- ===== src/Control/Echo/Answers.antt =====
-- What the peer of pibot/control/echo.py answers to commands that arrive whole.
use pibot.Prelude.{ℕ, [], ◌∷◌, ◌++◌}
use pibot.Prelude.Int.{pos}
use pibot.Python.Text.{Text, codes}
use pibot.Python.Number.{text_of_int}
use pibot.Python.Utf8.{Bytes}
use pibot.Python.Dict.{Dict}
use pibot.Python.Value.{Value}
use pibot.Protocol.Message.{Message}

-- The frame that acknowledges a command.
unfoldable pub ack_line : ℕ → Bytes
ack_line n = codes "ACK " ++ (text_of_int (pos n) ++ b'\n' ∷ [])
