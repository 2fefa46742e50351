-- ===== src/Mc/RobotLink/Connected.antt =====
-- pibot/mc/robot_link.py: what the link knows of its robot, and its client.
use pibot.Prelude.{◌≡◌, refl, ap, ◌∙◌, ℕ, Bool, true, false, not, ◌||◌, Option, none, some}
use pibot.Python.Text.{Text}
use pibot.Python.Result.{Result, ok, err}
use pibot.Python.Action.{Action, continue, ◌>>=◌, ◌>>◌, read}
use pibot.Python.Value.{Runtime}
use pibot.Python.Tree.{Tree}
use pibot.Control.Client.{AgentClient, Web, Call, new_client, close_client, headers_for}
use pibot.Mc.RobotLink.{
  Outside, RobotLink, new_link, with_client, delegate, disconnect, connect, outside, stop_relay_of,
  close_session_of, drop_of, drop_old, open_new, tell_failsafe, start_video, call_client,
  close_video, forget_client, link_to, take_client, keep_session, run_relay, video_url,
}

abbrev has : {A : Type 0} → Option A → Bool
has none = false
has (some a) = true

-- The link has a robot and its URL exactly when it has a client, and no token without one.
abbrev pub IsCoherent : {W : Type 0} → RobotLink W → Type 0
IsCoherent l =
    (has l.robot ≡ has l.client)
    × (has l.robot_url ≡ has l.client)
    × ((has l.client || not (has l.robot_token)) ≡ true)

module _ {F O W : Type 0} (py : Runtime F O) (web : Web F O W) (out : Outside W) where
  -- A call that keeps the link coherent, returning or raising.
  record Keeps {A : Type 0} (m : Action (RobotLink W) A) : Type 0 where
    keeps : (l : RobotLink W) → IsCoherent l → IsCoherent (m l).1

  continued :
      {A B : Type 0} (r : Result A) (next : A → Action (RobotLink W) B) (l : RobotLink W)
      → IsCoherent l
      → ((a : A) → Keeps (next a))
      → IsCoherent (continue r next l).1
  continued (ok a) next l p keep = (keep a).keeps l p
  continued (err why) next l p keep = p

  Keeps-then :
      {A B : Type 0} (m : Action (RobotLink W) A) (next : A → Action (RobotLink W) B)
      → Keeps m
      → ((a : A) → Keeps (next a))
      → Keeps (m >>= next)
  Keeps-then m next first later = record {
    keeps = λ l p. continued (m l).0 next (m l).1 (first.keeps l p) later;
  }

  outside-Keeps : {A : Type 0} (call : Action W A) → Keeps (outside py web out call)
  outside-Keeps call = record { keeps = λ l p. p }

  Keeps-read :
      {A : Type 0} (next : RobotLink W → Action (RobotLink W) A)
      → ((l : RobotLink W) → IsCoherent l → IsCoherent (next l l).1)
      → Keeps (read >>= next)
  Keeps-read next keep = record { keeps = keep }

  stop_relay_of-Keeps : (o : Option ℕ) → Keeps (stop_relay_of py web out o)
  stop_relay_of-Keeps none = record { keeps = λ l p. p }
  stop_relay_of-Keeps (some n) =
      Keeps-then (outside py web out (out.stop_relay n))
        (λ _ m. (ok tt, record m { video_relay = none })) (outside-Keeps (out.stop_relay n))
        (λ _. record { keeps = λ l p. p })

  close_session_of-Keeps : (o : Option ℕ) → Keeps (close_session_of py web out o)
  close_session_of-Keeps none = record { keeps = λ l p. p }
  close_session_of-Keeps (some n) =
      Keeps-then (outside py web out (out.close_video_session n))
        (λ _ m. (ok tt, record m { relay_session = none }))
        (outside-Keeps (out.close_video_session n)) (λ _. record { keeps = λ l p. p })

  -- The link's client after a call of it is a client still.
  with_client-IsCoherent :
      {A : Type 0} (call : Call web A) (c : AgentClient) (l : RobotLink W)
      → l.client ≡ some c
      → IsCoherent l
      → IsCoherent (with_client py web out call c l).1
  unfolding with_client
  with_client-IsCoherent call c l e (p, q, r) = (p ∙ ap has e, q ∙ ap has e, refl)

  drop_of-IsCoherent :
      (o : Option AgentClient) (l : RobotLink W)
      → l.client ≡ o
      → IsCoherent l
      → IsCoherent (drop_of py web out o l).1
  unfolding drop_of
  drop_of-IsCoherent none l e p = p
  drop_of-IsCoherent (some c) l e p =
      continued (with_client py web out (close_client web) c l).0
        (λ _ m.
          (ok tt, record m { client = none; robot = none; robot_url = none; robot_token = none }))
        (with_client py web out (close_client web) c l).1
        (with_client-IsCoherent (close_client web) c l e p)
        (λ _. record { keeps = λ m q. (refl, refl, refl) })

  forget_client-Keeps : Keeps (forget_client py web out)
  unfolding forget_client
  forget_client-Keeps = record { keeps = λ l p. drop_of-IsCoherent l.client l refl p }

  -- Disconnecting, whatever raises on the way, leaves a link that agrees with its client.
  disconnect-Keeps : Keeps (disconnect py web out)
  unfolding disconnect
  disconnect-Keeps = record {
    keeps = λ l p.
        let closed =
          Keeps-then (stop_relay_of py web out l.video_relay) (λ _. close_video py web out)
            (stop_relay_of-Keeps l.video_relay)
            (λ _. record { keeps = λ m q. (close_session_of-Keeps m.relay_session).keeps m q }) in
        (Keeps-then (stop_relay_of py web out l.video_relay >> close_video py web out)
            (λ _. forget_client py web out) closed (λ _. forget_client-Keeps)).keeps
          l p;
  }

  delegate-Keeps : {A : Type 0} (call : Call web A) → Keeps (delegate py web out call)
  unfolding delegate
  delegate-Keeps call = record { keeps = λ l p. called l.client l refl p }
    where
      called :
          (o : Option AgentClient) (l : RobotLink W)
          → l.client ≡ o
          → IsCoherent l
          → IsCoherent (call_client py web out call o l).1
      called none l e p = p
      called (some c) l e p = with_client-IsCoherent call c l e p

  drop_old-Keeps : (o : Option AgentClient) → Keeps (drop_old py web out o)
  unfolding drop_old
  drop_old-Keeps none = record { keeps = λ l p. p }
  drop_old-Keeps (some c) = disconnect-Keeps

  tell_failsafe-Keeps :
      (hook : Option (Text → Option Text → Action W (Unit {0}))) (url : Text) (token : Option Text)
      → Keeps (tell_failsafe py web out hook url token)
  tell_failsafe-Keeps none url token = record { keeps = λ l p. p }
  tell_failsafe-Keeps (some hook) url token = outside-Keeps (hook url token)

  start_video-Keeps : (url : Text) (token : Option Text) → Keeps (start_video py web out url token)
  unfolding start_video
  start_video-Keeps url token =
      Keeps-then (outside py web out (out.video_session (headers_for token)))
        (λ session.
          keep_session py web out session
          >> (outside py web out (out.new_relay session (video_url url)) >>= run_relay py web out))
        (outside-Keeps (out.video_session (headers_for token)))
        (λ session. record {
          keeps = λ l p.
              (Keeps-then (outside py web out (out.new_relay session (video_url url)))
                  (run_relay py web out) (outside-Keeps (out.new_relay session (video_url url)))
                  (λ relay. record { keeps = λ m q. q })).keeps
                (keep_session py web out session l).1 p;
        })

  link_to-Keeps : (name : Text) → Keeps (link_to py web out name)
  unfolding link_to open_new
  link_to-Keeps name =
      Keeps-then (outside py web out (out.resolver name)) _ (outside-Keeps (out.resolver name))
        (λ endpoint.
          Keeps-then (open_new py web out (new_client endpoint.0 endpoint.1)) _
            (record { keeps = λ l p. p })
            (λ c.
              Keeps-then
                (take_client py web out name endpoint.0 endpoint.1 c
                  >> tell_failsafe py web out out.on_connect endpoint.0 endpoint.1
                  >> start_video py web out endpoint.0 endpoint.1)
                _
                (Keeps-then
                  (take_client py web out name endpoint.0 endpoint.1 c
                    >> tell_failsafe py web out out.on_connect endpoint.0 endpoint.1)
                  (λ _. start_video py web out endpoint.0 endpoint.1)
                  (Keeps-then (take_client py web out name endpoint.0 endpoint.1 c)
                    (λ _. tell_failsafe py web out out.on_connect endpoint.0 endpoint.1)
                    (record { keeps = λ l p. (refl, refl, refl) })
                    (λ _. tell_failsafe-Keeps out.on_connect endpoint.0 endpoint.1))
                  (λ _. start_video-Keeps endpoint.0 endpoint.1))
                (λ _. record { keeps = λ l p. p })))

  connect-Keeps : (name : Text) → Keeps (connect py web out name)
  unfolding connect
  connect-Keeps name = record {
    keeps = λ l p.
        (Keeps-then (drop_old py web out l.client) (λ _. link_to py web out name)
            (drop_old-Keeps l.client) (λ _. link_to-Keeps name)).keeps
          l p;
  }

  -- The links that calls lead to, whatever each of them returned or raised.
  pub data Reached : RobotLink W → Type 0 where
    made : (w : W) → Reached (new_link w)
    connected : {l : RobotLink W} (name : Text) → Reached l → Reached (connect py web out name l).1
    disconnected : {l : RobotLink W} → Reached l → Reached (disconnect py web out l).1
    delegated :
        {l : RobotLink W} (call : Call web (Tree F O))
        → Reached l
        → Reached (delegate py web out call l).1

  -- After any sequence of calls, whatever each of them returned or raised, the link knows a robot
  -- and its URL exactly when it has a client, and it has no token without a client.
  pub Reached-IsCoherent : (l : RobotLink W) → Reached l → IsCoherent l
  unfolding new_link
  Reached-IsCoherent l (made w) = (refl, refl, refl)
  Reached-IsCoherent l (connected name before) =
      (connect-Keeps name).keeps _ (Reached-IsCoherent _ before)
  Reached-IsCoherent l (disconnected before) =
      disconnect-Keeps.keeps _ (Reached-IsCoherent _ before)
  Reached-IsCoherent l (delegated call before) =
      (delegate-Keeps call).keeps _ (Reached-IsCoherent _ before)
