-- ===== src/Agent/Safety/Events.antt =====
-- What happens to the agent, in any order: commands, ticks of its loop, trips and resumes.
use pibot.Prelude.{◌≡◌, List, [], ◌∷◌, ◌++◌, All}
use pibot.Python.Utf8.{Bytes}
use pibot.Python.Value.{Runtime}
use pibot.Protocol.Message.{Message}
use pibot.Agent.Safety.{Config, AgentSafety, submit, tick, trip_estop, resume_estop}

pub data Event (F O : Type 0) : Type 0 where
  command_in : Message F O → Event F O
  ticked : Event F O
  tripped : Event F O
  resumed : Event F O

module _ {F O : Type 0} (py : Runtime F O) (config : Config F) where
  -- A method that raises leaves its state behind all the same.
  unfoldable pub step : Event F O → AgentSafety F → AgentSafety F
  step (command_in m) s = (submit py config m s).1
  step ticked s = (tick py config s).1
  step tripped s = (trip_estop py config s).1
  step resumed s = (resume_estop py config s).1

  unfoldable pub run : List (Event F O) → AgentSafety F → AgentSafety F
  unfolding step
  run [] s = s
  run (e ∷ es) s = run es (step e s)

-- No resume among the events.
abbrev pub NoResume : {F O : Type 0} → List (Event F O) → Type 0
NoResume [] = Unit
NoResume (resumed ∷ es) = ⊥
NoResume (e ∷ es) = NoResume es

-- The frames in the order of the events, where those of each event have the property that it asks for.
abbrev pub Through :
    {F O : Type 0} → (Event F O → Bytes → Type 0) → List (Event F O) → List Bytes → Type 0
Through Q [] frames = frames ≡ []
Through Q (e ∷ es) frames =
    (now : List Bytes) × (later : List Bytes) × (frames ≡ now ++ later)
    × All (Q e) now
    × Through Q es later
