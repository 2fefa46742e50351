-- ===== src/Control/Client.antt =====
-- `class AgentClient` of pibot/control/client.py, over what it uses of aiohttp. A session or a socket
-- is a number that aiohttp gives it. `telemetry_stream` is left out.
pub mod ArmMotion
use pibot.Prelude.{
  ℕ, Bool, true, false, not, Option, none, some, List, [], ◌∷◌, ◌++◌, ltb, if◌then◌else◌,
}
use pibot.Prelude.Int.{ℤ, pos, ltb_ℤ}
use pibot.Python.Text.{Text, codes, rstrip_char, given}
use pibot.Python.Result.{Result, ok, err, runtime_error, assertion_error, or_raise}
use pibot.Python.Action.{Action, ◌>>=◌, ◌>>◌, pure, lift, read, write}
use pibot.Python.Dict.{Dict}
use pibot.Python.Tree.{Tree, leaf, dict, Fields, no_fields, field, text_leaf, float_leaf}
use pibot.Arm.Programs.Show.{with_field}

pub data Method : Type 0 where
  get_method post_method delete_method : Method

pub record Response (F O : Type 0) : Type 0 where
  pub status : ℤ
  pub json : Result (Tree F O)

-- What aiohttp does; `W` is the state of the network.
pub record Web (F O W : Type 0) : Type 0 where
  pub open_session : Dict Text → Action W ℕ
  pub close_session : ℕ → Action W (Unit {0})
  pub request : ℕ → Method → Text → Option (Tree F O) → Action W (Response F O)
  pub ws_connect : ℕ → Text → Action W ℕ
  pub is_closed : ℕ → W → Bool
  pub send_json : ℕ → Tree F O → Action W (Unit {0})
  pub receive_json : ℕ → Action W (Tree F O)
  pub close_ws : ℕ → Action W (Unit {0})

pub record AgentClient : Type 0 where
  pub base : Text
  pub headers : Dict Text
  pub session : Option ℕ
  pub ws : Option ℕ
  pub arm_ws : Option ℕ

-- {"Authorization": f"Bearer {token}"} if token else {}
unfoldable pub headers_for : Option Text → Dict Text
headers_for none = []
headers_for (some token) =
    if given (some token) then (codes "Authorization", codes "Bearer " ++ token) ∷ [] else []

-- `__init__`
unfoldable pub new_client : Text → Option Text → AgentClient
unfolding rstrip_char headers_for
new_client base_url token = record {
  base = rstrip_char b'/' base_url;
  headers = headers_for token;
  session = none;
  ws = none;
  arm_ws = none;
}

module _ {F O W : Type 0} (web : Web F O W) where
  -- A call of a method of the client.
  abbrev pub Call : Type 0 → Type 0
  Call A = Action (AgentClient × W) A

  -- What the network does within the client.
  abbrev pub on_web : {A : Type 0} → Action W A → Call A
  on_web call s = let (r, w) = call s.1 in (r, (s.0, w))

  unfoldable pub open_client : Call (Unit {0})
  open_client = do
    s ← read
    elim s.0.session [
      | some n ↦ pure tt
      | none ↦ on_web (web.open_session s.0.headers) >>= λ n s'.
          (ok tt, (record s'.0 { session = some n }, s'.1))
    ]

  -- assert self._session is not None
  unfoldable pub the_session : Call ℕ
  the_session s = (or_raise s.0.session assertion_error, s)

  unfoldable pub connect : Call (Unit {0})
  unfolding open_client the_session
  connect = do
    open_client
    n ← the_session
    s ← read
    ws ← on_web (web.ws_connect n (s.0.base ++ codes "/control"))
    s' ← read
    write (record s'.0 { ws = some ws }, s'.1)

  -- `connected`
  unfoldable pub is_connected : AgentClient × W → Bool
  is_connected s = elim s.0.ws [ none ↦ false | some n ↦ not (web.is_closed n s.1) ]

  -- `args or {}`
  args_or_empty : Option (Fields F O) → Fields F O
  args_or_empty none = no_fields
  args_or_empty (some args) = args

  unfoldable pub send_command : Text → Option (Fields F O) → Call (Tree F O)
  unfolding args_or_empty
  send_command cmd args = do
    s ← read
    n ← lift (or_raise s.0.ws runtime_error)
    on_web (
        web.send_json n (
          dict (
            field (codes "cmd") (text_leaf cmd)
              (field (codes "args") (dict (args_or_empty args)) no_fields))))
    on_web (web.receive_json n)

  -- One request of the agent's, and the JSON that it answers.
  unfoldable pub call_agent : Method → Text → Option (Tree F O) → Call (Tree F O)
  unfolding the_session
  call_agent method path body = do
    n ← the_session
    s ← read
    resp ← on_web (web.request n method (s.0.base ++ path) body)
    lift resp.json

  unfoldable pub estop : Call (Tree F O)
  unfolding call_agent
  estop = call_agent post_method (codes "/estop") none

  unfoldable pub telemetry : Call (Tree F O)
  unfolding call_agent
  telemetry = call_agent get_method (codes "/telemetry") none

  unfoldable pub arm_telemetry : Call (Tree F O)
  unfolding call_agent
  arm_telemetry = call_agent get_method (codes "/arm/telemetry") none

  unfoldable pub arm_pose_list : Call (Tree F O)
  unfolding call_agent
  arm_pose_list = call_agent get_method (codes "/arm/poses") none

  unfoldable pub arm_pose_save : Text → Option (Tree F O) → Call (Tree F O)
  unfolding call_agent
  arm_pose_save name none =
      call_agent post_method (codes "/arm/poses")
        (some (dict (field (codes "name") (text_leaf name) no_fields)))
  arm_pose_save name (some pose) =
      call_agent post_method (codes "/arm/poses")
        (some (dict (field (codes "pose") pose no_fields)))

  unfoldable pub arm_pose_get : Text → Call (Tree F O)
  unfolding call_agent
  arm_pose_get name = call_agent get_method (codes "/arm/poses/" ++ name) none

  unfoldable pub arm_pose_delete : Text → Call (Tree F O)
  unfolding call_agent
  arm_pose_delete name = call_agent delete_method (codes "/arm/poses/" ++ name) none

  unfoldable pub arm_program_list : Call (Tree F O)
  unfolding call_agent
  arm_program_list = call_agent get_method (codes "/arm/programs") none

  unfoldable pub arm_program_save : Tree F O → Call (Tree F O)
  unfolding call_agent
  arm_program_save program = call_agent post_method (codes "/arm/programs") (some program)

  unfoldable pub arm_program_get : Text → Call (Tree F O)
  unfolding call_agent
  arm_program_get name = call_agent get_method (codes "/arm/programs/" ++ name) none

  unfoldable pub arm_program_delete : Text → Call (Tree F O)
  unfolding call_agent
  arm_program_delete name = call_agent delete_method (codes "/arm/programs/" ++ name) none

  unfoldable pub arm_program_run : Text → Call (Tree F O)
  unfolding call_agent
  arm_program_run name =
      call_agent post_method (codes "/arm/programs/" ++ (name ++ codes "/run")) none

  unfoldable pub arm_program_stop : Call (Tree F O)
  unfolding call_agent
  arm_program_stop = call_agent post_method (codes "/arm/programs/stop") none

  unfoldable pub autonomy_start : Text → Option F → Option F → Call (Tree F O)
  unfolding the_session
  autonomy_start prompt max_speed control_hz = do
    n ← the_session
    s ← read
    resp ← on_web (
        web.request n post_method (s.0.base ++ codes "/autonomy") (
          some (
            dict (
              field (codes "prompt") (text_leaf prompt) (
                with_field (codes "max_speed") float_leaf max_speed
                  (with_field (codes "control_hz") float_leaf control_hz no_fields))))))
    lift (if ltb_ℤ resp.status (pos 400) then resp.json else err runtime_error)

  unfoldable pub autonomy_stop : Call (Tree F O)
  unfolding call_agent
  autonomy_stop = call_agent delete_method (codes "/autonomy") none

  -- Closes what is there, and forgets it.
  close_part : Option ℕ → (ℕ → Action W (Unit {0})) → (AgentClient → AgentClient) → Call (Unit {0})
  close_part none call forget = pure tt
  close_part (some n) call forget = on_web (call n) >>= λ _ s. (ok tt, (forget s.0, s.1))

  -- `close`
  unfoldable pub close_client : Call (Unit {0})
  unfolding close_part
  close_client = do
    s ← read
    close_part s.0.ws web.close_ws (λ c. record c { ws = none })
    close_part s.0.arm_ws web.close_ws (λ c. record c { arm_ws = none })
    close_part s.0.session web.close_session (λ c. record c { session = none })
