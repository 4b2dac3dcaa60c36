-- ===== src/Agent/Listening.antt =====
-- How many pipes of the agent listen (agent/src/agent_win.cc).
use content_analysis_sdk.Prelude.{
  ℕ, zero, suc, ◌+◌, ◌<◌, true, false, Bool, ◌&&◌, not, none, some, Option, List, [], ◌∷◌, ◌++◌,
  ◌≡◌, refl, ◌⊎◌, inr, arith, length, length-append, get_elem?, set, erase_idx, if◌then◌else◌,
}
use content_analysis_sdk.ResultCode.{ResultCode, ok}
use content_analysis_sdk.ResultCode.Recoverable.{code_eq→eq}
use content_analysis_sdk.Windows.{null_handle}
use content_analysis_sdk.PipeName.{get_pipe_name_for_agent}
use content_analysis_sdk.Host.{Host, State}
use content_analysis_sdk.Connection.{Connection, new_connection, reset, at}
use content_analysis_sdk.Connection.Reading.{handle_event}
use content_analysis_sdk.Connection.Sessions.{handle_event_keeps}
use content_analysis_sdk.Connection.Resetting.{reset_calls, new_connection_calls}
use content_analysis_sdk.Agent.{
  Agent, Config, min_num_listening_pipe_instances, recover, replenish, handle_connection,
  handle_one_event, handle_events, get_handles, create, new_agent, make_connections, shutdown,
}

-- Connections without a browser.
abbrev pub listening : List Connection → ℕ
listening [] = 0
listening (c ∷ cs) = (if c.is_connected then 0 else 1) + listening cs

abbrev pub connected : List Connection → ℕ
connected [] = 0
connected (c ∷ cs) = (if c.is_connected then 1 else 0) + connected cs

length-split : (cs : List Connection) → listening cs + connected cs ≡ length cs
length-split [] = refl
length-split (c ∷ cs) = ground (arith, length-split cs)

listening-append : (cs ds : List Connection) → listening (cs ++ ds) ≡ listening cs + listening ds
listening-append [] ds = omega arith
listening-append (c ∷ cs) ds = omega (arith, listening-append cs ds)

-- The counts when the connection at an index is replaced or taken out.
listening-set :
    (cs : List Connection) (i : ℕ) (c c' : Connection)
    → get_elem? cs i ≡ some c
    → listening (set cs i c') + (if c.is_connected then 0 else 1)
      ≡ listening cs + (if c'.is_connected then 0 else 1)
listening-set [] i c c' e = ground arith
listening-set (d ∷ cs) zero c c' e = ground arith
listening-set (d ∷ cs) (suc i) c c' e = ground (arith, listening-set cs i c c' e)

listening-erase :
    (cs : List Connection) (i : ℕ) (c : Connection)
    → get_elem? cs i ≡ some c
    → listening (erase_idx cs i) + (if c.is_connected then 0 else 1) ≡ listening cs
listening-erase [] i c e = ground arith
listening-erase (d ∷ cs) zero c e = ground arith
listening-erase (d ∷ cs) (suc i) c e = ground (arith, listening-erase cs i c e)

connected_lt :
    (cs : List Connection) (i : ℕ) (c : Connection)
    → get_elem? cs i ≡ some c
    → c.is_connected ≡ true
    → listening cs < length cs
connected_lt [] i c e h = ground arith
connected_lt (d ∷ cs) zero c e h = ground (arith, length-split cs)
connected_lt (d ∷ cs) (suc i) c e h = ground (arith, connected_lt cs i c e h)

module _ (host : Host) where
  open host use {os}

  recover-listening :
      (was_listening : Bool) (rc : ResultCode) (i : ℕ) (c c₁ : Connection) (a : Agent)
      (s : State host)
      → let (rc', conn, a', s') = recover host was_listening rc i c₁ a s in
        get_elem? a.connections i ≡ some c
        → c.is_connected ≡ not was_listening
        → c₁.is_connected ≡ false
        → listening a.connections ≡ min_num_listening_pipe_instances
        → (listening a'.connections ≡ min_num_listening_pipe_instances)
          × ((was_listening && conn) ≡ false)
  unfolding recover
  recover-listening was_listening rc i c c₁ a s e was ended two =
      let r = reset host a.pipename a.config.user_specific c₁ s in
      ground (
        arith,
        reset_calls host a.pipename a.config.user_specific c₁ s ended,
        listening-erase a.connections i c e,
        listening-set a.connections i c r.1 e,
        connected_lt a.connections i c e,
      )

  -- The connection at `i` has an event: if two of the agent's connections are without a browser
  -- before, then two are after.
  listening-handle_connection :
      (i : ℕ) (c : Connection) (a : Agent) (s : State host)
      → get_elem? a.connections i ≡ some c
      → listening a.connections ≡ min_num_listening_pipe_instances
      → listening (handle_connection host i c a s).0.connections ≡ min_num_listening_pipe_instances
  unfolding handle_connection replenish
  listening-handle_connection i c a s e two =
      let h = handle_event host c.event c s in
      let rec = recover host (not c.is_connected) h.0 i h.1 a h.2 in
      let kept = set a.connections i h.1 in
      let made = new_connection host a.pipename a.config.user_specific a.has_handler false h.2 in
      ground (
        arith,
        handle_event_keeps host c.event c s,
        recover-listening (not c.is_connected) h.0 i c h.1 a h.2 e,
        listening-set a.connections i c h.1 e,
        listening-append kept (made.1 ∷ []),
        new_connection_calls host a.pipename a.config.user_specific a.has_handler false h.2,
      )

  one_event_at :
      (a : Agent) (s : State host) (o : Option Connection)
      → let w = os.wait_for_multiple_objects (get_handles a) s.world in
        get_elem? a.connections w.0 ≡ o
        → listening a.connections ≡ min_num_listening_pipe_instances
        → listening (handle_one_event host a s).2.connections ≡ min_num_listening_pipe_instances
  unfolding handle_one_event
  one_event_at a s none e two = ground arith
  one_event_at a s (some c) e two =
      let w = os.wait_for_multiple_objects (get_handles a) s.world in
      ground (arith, listening-handle_connection w.0 c a (at host w.1 s) e two)

  -- HandleOneEvent keeps the number of connections without a browser at
  -- kMinNumListeningPipeInstances, whatever the operating system answers.
  pub listening-handle_one_event :
      (a : Agent) (s : State host)
      → listening a.connections ≡ min_num_listening_pipe_instances
      → listening (handle_one_event host a s).2.connections ≡ min_num_listening_pipe_instances
  listening-handle_one_event a s two = one_event_at a s _ refl two

  -- If kMinNumListeningPipeInstances connections are without a browser before HandleEvents and it
  -- returns, after any number of events, then as many are when it returns.
  pub handle_events-listening :
      (events : ℕ) (a : Agent) (s : State host) (rc : ResultCode) (a' : Agent) (s' : State host)
      → listening a.connections ≡ min_num_listening_pipe_instances
      → handle_events host events a s ≡ some (rc, a', s')
      → listening a'.connections ≡ min_num_listening_pipe_instances
  unfolding handle_events
  handle_events-listening zero a s rc a' s' two e = ground arith
  handle_events-listening (suc events) a s rc a' s' two e =
      let r = handle_one_event host a s in
      let two' = listening-handle_one_event a s two in
      ground (arith, two', handle_events-listening events r.2 r.3 rc a' s' two')

  -- A loop of the constructor that is not broken off adds connections that have a pipe and no
  -- browser.
  made_listening :
      (left : ℕ) (first : Bool) (rc : ResultCode) (a : Agent) (s : State host)
      → let r = make_connections host left first rc a s in
        ((r.1.connections ≡ []) × (r.1.stop_event ≡ null_handle))
        ⊎ ((length r.1.connections ≡ length a.connections + left)
            × (listening r.1.connections ≡ listening a.connections + left))
  unfolding make_connections shutdown
  made_listening zero first rc a s = inr (omega arith, omega arith)
  made_listening (suc left) first rc a s =
      let m = new_connection host a.pipename a.config.user_specific a.has_handler first s in
      let a₁ = record a { connections = a.connections ++ (m.1 ∷ []) } in
      ground (
        arith,
        new_connection_calls host a.pipename a.config.user_specific a.has_handler first s,
        listening-append a.connections (m.1 ∷ []),
        length-append a.connections (m.1 ∷ []),
        made_listening left false m.0 a₁ m.2,
      )

  new_agent-listening :
      (config : Config) (has_handler : Bool) (s : State host)
      → let (rc, a, s') = new_agent host config has_handler s in
        rc ≡ ok
        → ((a.connections ≡ []) × (a.stop_event ≡ null_handle))
          ⊎ ((length a.connections ≡ min_num_listening_pipe_instances)
              × (listening a.connections ≡ min_num_listening_pipe_instances))
  unfolding new_agent
  new_agent-listening config has_handler s fine =
      let (event, w₁) = os.create_event s.world in
      let (pipename, w₂) = get_pipe_name_for_agent os config.name config.user_specific w₁ in
      let a : Agent = record {
        config = config;
        has_handler = has_handler;
        pipename = pipename;
        connections = [];
        stop_event = event;
      } in
      ground (arith, made_listening min_num_listening_pipe_instances true ok a (at host w₂ s))

  -- If Agent::Create returns an agent, then its code is OK, and the agent has
  -- kMinNumListeningPipeInstances connections, all without a browser; or the constructor shut it
  -- down again without an error code, so that it has neither a connection nor a stop event.
  pub create-listening :
      (config : Config) (has_handler : Bool) (s : State host) (a : Agent)
      → (create host config has_handler s).1 ≡ some a
      → ((create host config has_handler s).0 ≡ ok)
        × (((a.connections ≡ []) × (a.stop_event ≡ null_handle))
            ⊎ ((length a.connections ≡ min_num_listening_pipe_instances)
                × (listening a.connections ≡ min_num_listening_pipe_instances)))
  unfolding create
  create-listening config has_handler s a e = ground (
    arith,
    code_eq→eq (new_agent host config has_handler s).0 ok,
    new_agent-listening config has_handler s,
  )
