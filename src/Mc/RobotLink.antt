-- ===== src/Mc/RobotLink.antt =====
-- `class RobotLink` of pibot/mc/robot_link.py. The resolver, the hook of the e-stop failsafe and the
-- video relay come from outside; a relay and its session are numbers. `telemetry_stream` is left out.
pub mod Arm
pub mod Connected
use pibot.Prelude.{
  ℕ, Bool, true, false, not, ◌&&◌, Option, none, some, List, [], ◌∷◌, ◌++◌, if◌then◌else◌,
}
use pibot.Python.Text.{Text, codes, replace}
use pibot.Python.Result.{Result, ok, err, runtime_error, attribute_error, or_raise}
use pibot.Python.Action.{Action, ◌>>=◌, ◌>>◌, pure, lift, read, write}
use pibot.Python.Dict.{Dict}
use pibot.Python.Value.{null, bool, Runtime}
use pibot.Python.Tree.{
  Tree, leaf, list, dict, Fields, no_fields, field, field_at, text_leaf, truth_of,
}
use pibot.Control.Client.{
  AgentClient, Web, Call, new_client, headers_for, open_client, close_client, autonomy_start,
  autonomy_stop, telemetry,
}

pub record Outside (W : Type 0) : Type 0 where
  pub resolver : Text → Action W (Text × Option Text)
  pub on_connect : Option (Text → Option Text → Action W (Unit {0}))
  pub video_session : Dict Text → Action W ℕ
  pub new_relay : ℕ → Text → Action W ℕ
  pub start_relay : ℕ → Action W (Unit {0})
  pub stop_relay : ℕ → Action W (Unit {0})
  pub close_video_session : ℕ → Action W (Unit {0})

pub record RobotLink (W : Type 0) : Type 0 where
  pub client : Option AgentClient
  pub robot : Option Text
  pub robot_url : Option Text
  pub robot_token : Option Text
  pub video_relay : Option ℕ
  pub relay_session : Option ℕ
  pub world : W

-- `__init__`
unfoldable pub new_link : {W : Type 0} → W → RobotLink W
new_link w = record {
  client = none;
  robot = none;
  robot_url = none;
  robot_token = none;
  video_relay = none;
  relay_session = none;
  world = w;
}

-- `connected`
unfoldable pub is_linked : {W : Type 0} → RobotLink W → Bool
is_linked l = elim l.client [ none ↦ false | some c ↦ true ]

-- The address of the video, on the robot's URL.
unfoldable pub video_url : Text → Text
unfolding replace
video_url url =
    replace (codes "https://") (codes "wss://") (replace (codes "http://") (codes "ws://") url)
    ++ codes "/video"

module _ {F O W : Type 0} (py : Runtime F O) (web : Web F O W) (out : Outside W) where
  -- What runs outside, within the link.
  abbrev pub outside : {A : Type 0} → Action W A → Action (RobotLink W) A
  outside call l = let (r, w) = call l.world in (r, record l { world = w })

  -- A call of the link's client, which the link keeps as it is after it.
  unfoldable pub with_client : {A : Type 0} → Call web A → AgentClient → Action (RobotLink W) A
  with_client call c l =
      let (r, s) = call (c, l.world) in (r, record l { client = some s.0; world = s.1 })

  abbrev pub stop_relay_of : Option ℕ → Action (RobotLink W) (Unit {0})
  stop_relay_of none = pure tt
  stop_relay_of (some n) =
      outside (out.stop_relay n) >>= λ _ m. (ok tt, record m { video_relay = none })

  abbrev pub close_session_of : Option ℕ → Action (RobotLink W) (Unit {0})
  close_session_of none = pure tt
  close_session_of (some n) =
      outside (out.close_video_session n) >>= λ _ m. (ok tt, record m { relay_session = none })

  -- The end of `disconnect`.
  unfoldable pub drop_of : Option AgentClient → Action (RobotLink W) (Unit {0})
  unfolding with_client close_client
  drop_of none = pure tt
  drop_of (some c) = with_client (close_client web) c >>= λ _ m.
      (ok tt, record m { client = none; robot = none; robot_url = none; robot_token = none })

  abbrev pub close_video : Action (RobotLink W) (Unit {0})
  close_video l = close_session_of l.relay_session l

  unfoldable pub forget_client : Action (RobotLink W) (Unit {0})
  unfolding drop_of
  forget_client l = drop_of l.client l

  unfoldable pub disconnect : Action (RobotLink W) (Unit {0})
  unfolding forget_client
  disconnect l = (stop_relay_of l.video_relay >> close_video >> forget_client) l

  -- The link that stands before a new one is dropped.
  unfoldable pub drop_old : Option AgentClient → Action (RobotLink W) (Unit {0})
  unfolding disconnect
  drop_old none = pure tt
  drop_old (some c) = disconnect

  -- `client.open()` of a client that is not the link's yet.
  unfoldable pub open_new : AgentClient → Action (RobotLink W) AgentClient
  unfolding open_client
  open_new c l =
      let (r, s) = open_client web (c, l.world) in
      ((elim r [ ok u ↦ ok s.0 | err why ↦ err why ]), record l { world = s.1 })

  abbrev pub tell_failsafe :
      Option (Text → Option Text → Action W (Unit {0}))
      → Text
      → Option Text
      → Action (RobotLink W) (Unit {0})
  tell_failsafe none url token = pure tt
  tell_failsafe (some hook) url token = outside (hook url token)

  abbrev pub keep_session : ℕ → Action (RobotLink W) (Unit {0})
  keep_session session l = (ok tt, record l { relay_session = some session })

  abbrev pub keep_relay : ℕ → Action (RobotLink W) (Unit {0})
  keep_relay relay l = (ok tt, record l { video_relay = some relay })

  abbrev pub run_relay : ℕ → Action (RobotLink W) (Unit {0})
  run_relay relay = keep_relay relay >> outside (out.start_relay relay)

  -- The video relay, on a session of its own.
  unfoldable pub start_video : Text → Option Text → Action (RobotLink W) (Unit {0})
  unfolding video_url headers_for
  start_video url token = outside (out.video_session (headers_for token)) >>= λ session.
      keep_session session >> (outside (out.new_relay session (video_url url)) >>= run_relay)

  abbrev pub take_client : Text → Text → Option Text → AgentClient → Action (RobotLink W) (Unit {0})
  take_client name url token c l = (
    ok tt,
    record l { client = some c; robot = some name; robot_url = some url; robot_token = token },
  )

  -- `connect`, from the resolver on.
  unfoldable pub link_to : Text → Action (RobotLink W) (Tree F O)
  unfolding new_client open_new start_video
  link_to name = outside (out.resolver name) >>= λ endpoint.
      open_new (new_client endpoint.0 endpoint.1) >>= λ c.
      take_client name endpoint.0 endpoint.1 c
      >> tell_failsafe out.on_connect endpoint.0 endpoint.1
      >> start_video endpoint.0 endpoint.1
      >> pure (
          dict (
            field (codes "robot") (text_leaf name)
              (field (codes "url") (text_leaf endpoint.0) no_fields)))

  unfoldable pub connect : Text → Action (RobotLink W) (Tree F O)
  unfolding drop_old link_to
  connect name l = (drop_old l.client >> link_to name) l

  abbrev pub call_client : {A : Type 0} → Call web A → Option AgentClient → Action (RobotLink W) A
  call_client call none = lift (err runtime_error)
  call_client call (some c) = with_client call c

  -- Each of the calls that go on to the client.
  unfoldable pub delegate : {A : Type 0} → Call web A → Action (RobotLink W) A
  unfolding with_client
  delegate call l = call_client call l.client l

  -- `autonomy_start`
  unfoldable pub start_autonomy : Text → Option F → Option F → Action (RobotLink W) (Tree F O)
  unfolding delegate autonomy_start
  start_autonomy prompt max_speed control_hz =
      delegate (autonomy_start web prompt max_speed control_hz)

  -- `autonomy_stop`
  unfoldable pub stop_autonomy : Action (RobotLink W) (Tree F O)
  unfolding delegate autonomy_stop
  stop_autonomy = delegate (autonomy_stop web)

  -- bool(policy and policy.get("connected"))
  unfoldable pub running_of : Option (Tree F O) → Result Bool
  unfolding field_at truth_of
  running_of none = ok false
  running_of (some (dict d)) = elim (field_at (codes "connected") d) [
    | none ↦ ok false
    | some t ↦ ok (truth_of py t)
  ]
  running_of (some t) = if truth_of py t then err attribute_error else ok false

  or_null : Option (Tree F O) → Tree F O
  or_null none = leaf null
  or_null (some t) = t

  -- What a snapshot shows of the policy.
  unfoldable pub status_of : Tree F O → Result (Tree F O)
  unfolding field_at running_of or_null
  status_of (dict snap) = elim (running_of (field_at (codes "policy") snap)) [
    | err why ↦ err why
    | ok running ↦ ok (
        dict (
          field (codes "running") (leaf (bool running))
            (field (codes "policy") (or_null (field_at (codes "policy") snap)) no_fields)))
  ]
  status_of _ = err attribute_error

  unfoldable pub autonomy_status : Action (RobotLink W) (Tree F O)
  unfolding delegate telemetry status_of
  autonomy_status = delegate (telemetry web) >>= λ snap. lift (status_of snap)
