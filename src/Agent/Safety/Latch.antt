-- ===== src/Agent/Safety/Latch.antt =====
-- agent/safety.py: which frame each event puts on the link, with the emergency stop latched and in
-- any state.
use pibot.Prelude.{◌≡◌, refl, sym, ap, ◌∙◌, true, false, List, [], ◌∷◌, ◌++◌, arith, All}
use mathlib.Core.List.{append-nil, append_assoc}
use mathlib.Core.Path.{subst}
use pibot.Python.Text.{Text, codes, one_of}
use pibot.Python.Text.Laws.{text_eq_iff}
use pibot.Python.Utf8.{Bytes}
use pibot.Python.Result.{ok, ok-injective}
use pibot.Python.Value.{Runtime}
use pibot.Python.Value.Laws.{IsTruncating}
use pibot.Protocol.Message.{Message}
use pibot.Protocol.Codec.{encode}
use pibot.Control.Safety.{
  EStop, allows, is_motion, clamp_command, clamp_args, motion_commands, safe_commands,
}
use pibot.Control.Safety.Bounds.{IsSane, IsBounded, clamp_command-IsBounded}
use pibot.Agent.Safety.{Config, AgentSafety, resume_estop, init}
use pibot.Agent.Safety.Sends.{Extends}
use pibot.Agent.Safety.Frames.{FrameOf, of, StopFrame, Sends-submit, Sends-tick, Sends-trip_estop}
use pibot.Agent.Safety.Events.{
  Event, command_in, ticked, tripped, resumed, step, run, NoResume, Through,
}

disjoint : (name : Text) → one_of name motion_commands ≡ true → one_of name safe_commands ≡ false
unfolding one_of
disjoint name h = ground (
  arith,
  text_eq_iff name (codes "drive"),
  text_eq_iff name (codes "motor"),
  text_eq_iff name (codes "servo"),
  text_eq_iff name (codes "stop"),
  text_eq_iff name (codes "estop"),
  text_eq_iff name (codes "ping"),
)

module _ {F O : Type 0} where
  latched_still :
      (s : EStop) (m : Message F O) → s.latched ≡ true → allows s m ≡ true → is_motion m ≡ false
  unfolding allows is_motion
  latched_still s m h k = ground (arith, disjoint m.name)

module _ {F O : Type 0} (py : Runtime F O) (config : Config F) where
  -- What is no motion is sent as it is.
  clamp_command_still :
      (m : Message F O) → is_motion m ≡ false → clamp_command py m config.limits ≡ ok m
  unfolding clamp_command clamp_args is_motion one_of
  clamp_command_still m h = ground arith

  -- What an event may put on the link while the stop is latched: a command that moves nothing goes
  -- out as it came, and a tick or a trip sends the agent's own stop.
  abbrev pub LatchedFrame : Event F O → Bytes → Type 0
  LatchedFrame (command_in m) frame =
      (is_motion m ≡ false) × (encode py m config.encoding ≡ ok frame)
  LatchedFrame ticked frame = StopFrame py config frame
  LatchedFrame tripped frame = StopFrame py config frame
  LatchedFrame resumed frame = ⊥

  LatchedFrame-submit :
      (m : Message F O) (frame : Bytes)
      → is_motion m ≡ false
      → FrameOf py config m frame
      → LatchedFrame (command_in m) frame
  LatchedFrame-submit m frame h (of c p q) = (
    h,
    subst (λ d. encode py d config.encoding ≡ ok frame)
        (sym (ok-injective (sym (clamp_command_still m h) ∙ p))) q,
  )

  latched_step :
      (e : Event F O) (s : AgentSafety F)
      → NoResume (e ∷ [])
      → s.estop.latched ≡ true
      → Extends (LatchedFrame e) s (step py config e s)
  unfolding step
  latched_step (command_in m) s n h =
      Sends-submit py config m s
        λ frame f allowed. LatchedFrame-submit m frame (latched_still s.estop m h allowed) f
  latched_step ticked s n h = (Sends-tick py config (λ frame k. k)).at s
  latched_step tripped s n h = (Sends-trip_estop py config (λ frame k. k)).at s
  latched_step resumed s n h = absurd n

  -- The events send such frames between two states.
  record RunSends (Q : Event F O → Bytes → Type 0) (es : List (Event F O)) (s t : AgentSafety F)
      : Type 0 where
    frames : List Bytes
    appended : t.sent ≡ s.sent ++ frames
    through : Through Q es frames

  RunSends-none : (Q : Event F O → Bytes → Type 0) (s : AgentSafety F) → RunSends Q [] s s
  RunSends-none Q s = record { frames = []; appended = sym (append-nil s.sent); through = refl }

  abbrev Appends : (Bytes → Type 0) → AgentSafety F → AgentSafety F → Type 0
  Appends Q s t = (frames : List Bytes) × (t.sent ≡ s.sent ++ frames) × All Q frames

  Extends-Appends : {Q : Bytes → Type 0} {s t : AgentSafety F} → Extends Q s t → Appends Q s t
  Extends-Appends a = (a.frames, a.appended, a.all)

  RunSends-event :
      {Q : Event F O → Bytes → Type 0} {es : List (Event F O)} {s t u : AgentSafety F}
      (e : Event F O)
      → Appends (Q e) s t
      → RunSends Q es t u
      → RunSends Q (e ∷ es) s u
  RunSends-event {Q} {es} {s} e (now, appended, all) b = record {
    frames = now ++ b.frames;
    appended = b.appended ∙ ap (λ l. l ++ b.frames) appended ∙ append_assoc s.sent now b.frames;
    through = (now, b.frames, refl, all, b.through);
  }

  NoResume-head : (e : Event F O) (es : List (Event F O)) → NoResume (e ∷ es) → NoResume (e ∷ [])
  NoResume-head (command_in m) es n = tt
  NoResume-head ticked es n = tt
  NoResume-head tripped es n = tt
  NoResume-head resumed es n = absurd n

  NoResume-tail : (e : Event F O) (es : List (Event F O)) → NoResume (e ∷ es) → NoResume es
  NoResume-tail (command_in m) es n = n
  NoResume-tail ticked es n = n
  NoResume-tail tripped es n = n
  NoResume-tail resumed es n = absurd n

  run_latched :
      (es : List (Event F O)) (s : AgentSafety F)
      → NoResume es
      → s.estop.latched ≡ true
      → ((run py config es s).estop.latched ≡ true)
        × RunSends LatchedFrame es s (run py config es s)
  unfolding run
  run_latched [] s n h = (h, RunSends-none LatchedFrame s)
  run_latched (e ∷ es) s n h =
      let a = latched_step e s (NoResume-head e es n) h in
      let (p, b) = run_latched es (step py config e s) (NoResume-tail e es n) (a.latch h) in
      (p, RunSends-event e (Extends-Appends a) b)

  -- From a state with the emergency stop latched, whatever is submitted, ticked and tripped, and
  -- in whatever order, up to a resume: the stop stays latched, and the frames that go through are,
  -- in the order of the events, those of submitted messages that are no motion command, as they
  -- came, and the agent's own stops at ticks and trips. (What is a motion command is told by the
  -- message's name. What a receiver reads in the frame of a name with a comma is not stated.)
  pub latched_until_resume :
      (es : List (Event F O)) (s : AgentSafety F)
      → NoResume es
      → s.estop.latched ≡ true
      → ((run py config es s).estop.latched ≡ true)
        × ((frames : List Bytes) × ((run py config es s).sent ≡ s.sent ++ frames)
            × Through LatchedFrame es frames)
  latched_until_resume es s n h =
      let (p, x) = run_latched es s n h in (p, (x.frames, x.appended, x.through))

  -- What an event may put on the link at any time: a submitted message is clamped, and what that
  -- gives is within the limits.
  abbrev pub BoundedFrame : Event F O → Bytes → Type 0
  BoundedFrame (command_in m) frame =
      (c : Message F O) × (clamp_command py m config.limits ≡ ok c)
      × IsBounded py config.limits c
      × (encode py c config.encoding ≡ ok frame)
  BoundedFrame ticked frame = StopFrame py config frame
  BoundedFrame tripped frame = StopFrame py config frame
  BoundedFrame resumed frame = ⊥

module _ {F O : Type 0} (py : Runtime F O) (laws : IsTruncating py) (config : Config F)
    (sane : IsSane py config.limits) where
  BoundedFrame-submit :
      (m : Message F O) (frame : Bytes)
      → FrameOf py config m frame
      → BoundedFrame py config (command_in m) frame
  BoundedFrame-submit m frame (of c p q) =
      (c, p, clamp_command-IsBounded py laws config.limits sane m c p, q)

  sent_step :
      (e : Event F O) (s : AgentSafety F)
      → Appends py config (BoundedFrame py config e) s (step py config e s)
  unfolding step resume_estop
  sent_step (command_in m) s =
      Extends-Appends py config
        (Sends-submit py config m s λ frame f allowed. BoundedFrame-submit m frame f)
  sent_step ticked s = Extends-Appends py config ((Sends-tick py config (λ frame k. k)).at s)
  sent_step tripped s = Extends-Appends py config ((Sends-trip_estop py config (λ frame k. k)).at s)
  sent_step resumed s = ([], sym (append-nil s.sent), tt)

  run_bounded :
      (es : List (Event F O)) (s : AgentSafety F)
      → RunSends py config (BoundedFrame py config) es s (run py config es s)
  unfolding run
  run_bounded [] s = RunSends-none py config (BoundedFrame py config) s
  run_bounded (e ∷ es) s =
      RunSends-event py config e (sent_step e s) (run_bounded es (step py config e s))

  -- With limits that are no empty range, whatever commands, ticks, trips and resumes come, the
  -- frames that the agent puts on the link are, in the order of these events, those of submitted
  -- messages after clamp_command, which drive no actuator out of the limits, and the agent's own
  -- stops at ticks and trips. (Which arguments a limit applies to is told by the message's name.)
  pub sent_within_limits :
      (es : List (Event F O))
      → Through (BoundedFrame py config) es (run py config es (init py config)).sent
  unfolding init
  sent_within_limits es =
      let x = run_bounded es (init py config) in
      subst (Through (BoundedFrame py config) es) (sym x.appended) x.through
