-- ===== src/Arm/Boards.antt =====
-- The transports of the arm's boards (`Transport` of pibot/transport/base.py, one for each board),
-- and a record of what they were asked to do.
use pibot.Prelude.{ℕ, Option, List, [], ◌∷◌, ◌++◌}
use pibot.Python.Utf8.{Bytes}
use pibot.Python.Result.{Result, ok, err}
use pibot.Python.Action.{Action}

-- A board is named by its place in the list of transports; `W` is the state of them all, and `F`
-- holds a timeout.
pub record Boards (F W : Type 0) : Type 0 where
  pub open_board : ℕ → Action W (Unit {0})
  pub close_board : ℕ → Action W (Unit {0})
  pub send_to : ℕ → Bytes → Action W (Unit {0})
  pub receive : ℕ → F → Action W (Option Bytes)

-- A board opened, a board that was told to close, and a frame that a board took.
pub data Event : Type 0 where
  opened : ℕ → Event
  closed : ℕ → Event
  sent : ℕ → Bytes → Event

module _ {W : Type 0} where
  abbrev pub noted :
      Event → Result (Unit {0}) × W → List Event → Result (Unit {0}) × (W × List Event)
  noted e (ok u, w) log = (ok u, (w, log ++ e ∷ []))
  noted e (err why, w) log = (err why, (w, log))

-- The same boards, with the events written down.
unfoldable pub recorded : {F W : Type 0} → Boards F W → Boards F (W × List Event)
recorded b = record {
  open_board = λ k s. noted (opened k) (b.open_board k s.0) s.1;
  close_board = λ k s. let (r, w) = b.close_board k s.0 in (r, (w, s.1 ++ closed k ∷ []));
  send_to = λ k frame s. noted (sent k frame) (b.send_to k frame s.0) s.1;
  receive = λ k timeout s. let (r, w) = b.receive k timeout s.0 in (r, (w, s.1));
}
