-- ===== src/Agent/Refusing.antt =====
-- The constructor of AgentWin (agent/src/agent_win.cc) that fails: the result code, and what the agent
-- does afterwards.
use content_analysis_sdk.Prelude.{
  ℕ, zero, suc, Bool, true, false, some, [], ◌∷◌, ◌++◌, ◌≡◌, ◌≢◌, refl, sym, ◌∙◌, arith, Text,
  codes, is_empty, ◌==◌,
}
use content_analysis_sdk.ResultCode.{ResultCode, ok, agent_not_initialized, error_to_result_code}
use content_analysis_sdk.ResultCode.Recoverable.{code_eq→eq}
use content_analysis_sdk.Windows.{null_handle, invalid_handle_value}
use content_analysis_sdk.PipeName.{create_pipe, get_pipe_name_for_agent}
use content_analysis_sdk.Host.{Host, State}
use content_analysis_sdk.Connection.{
  new_connection, reset_internal, obtain_pipe, reset_and_connect, at,
}
use content_analysis_sdk.Agent.{
  Agent, Config, shutdown, make_connections, new_agent, get_handles, events_of, handle_one_event,
  handle_events, notify_error, min_num_listening_pipe_instances,
}

module _ (host : Host) where
  open host use {os}

  failed_connections :
      (left : ℕ) (first : Bool) (rc : ResultCode) (a : Agent) (s : State host)
      → rc ≡ ok
      → let r = make_connections host left first rc a s in r.0 ≢ ok → r.1.connections ≡ []
  unfolding make_connections shutdown
  failed_connections zero first rc a s fine failed = absurd (failed fine)
  failed_connections (suc left) first rc a s fine failed =
      let m = new_connection host a.pipename a.config.user_specific a.has_handler first s in
      let a₁ = record a { connections = a.connections ++ (m.1 ∷ []) } in
      ground (arith, code_eq→eq m.0 ok, failed_connections left false m.0 a₁ m.2)

  failed_agent :
      (config : Config) (has_handler : Bool) (s : State host)
      → let (rc, a, s') = new_agent host config has_handler s in rc ≢ ok → a.connections ≡ []
  unfolding new_agent
  failed_agent config has_handler s failed =
      let (event, w₁) = os.create_event s.world in
      let (pipename, w₂) = get_pipe_name_for_agent os config.name config.user_specific w₁ in
      let a : Agent = record {
        config = config;
        has_handler = has_handler;
        pipename = pipename;
        connections = [];
        stop_event = event;
      } in
      ground
        (arith, failed_connections min_num_listening_pipe_instances true ok a (at host w₂ s) refl)

  no_connections :
      (a : Agent) (s : State host)
      → a.connections ≡ []
      → handle_one_event host a s ≡ (
        agent_not_initialized,
        false,
        a,
        notify_error host a (codes "GetHandles") agent_not_initialized s,
      )
  unfolding handle_one_event get_handles events_of
  no_connections a s empty = ground arith

  -- An agent whose constructor set a code that is not OK handles no events: whatever the state, its
  -- HandleEvents returns ERR_AGENT_NOT_INITIALIZED at once, and only the handler is told of it, if there
  -- is one.
  pub new_agent-handle_events :
      (config : Config) (has_handler : Bool) (s t : State host) (rounds : ℕ)
      → let (rc, a, s') = new_agent host config has_handler s in
        rc ≢ ok
        → handle_events host (suc rounds) a t
          ≡ some (
            agent_not_initialized,
            a,
            notify_error host a (codes "GetHandles") agent_not_initialized t,
          )
  unfolding handle_events
  new_agent-handle_events config has_handler s t rounds failed =
      let a = (new_agent host config has_handler s).1 in
      ground (arith, no_connections a t (failed_agent config has_handler s failed))

  -- A new connection whose pipe cannot be made has the code of the error of CreatePipe.
  unmade_connection :
      (pipename : Text) (user_specific has_handler first : Bool) (s : State host)
      → let (event, w₁) = os.create_event s.world in
        let (err, handle, w₂) =
          create_pipe os pipename user_specific first invalid_handle_value w₁ in
        (event == null_handle) ≡ false
        → error_to_result_code err ≢ ok
        → (new_connection host pipename user_specific has_handler first s).0
          ≡ error_to_result_code err
  unfolding new_connection reset_internal obtain_pipe reset_and_connect
  unmade_connection pipename user_specific has_handler first s made failed =
      let (event, w₁) = os.create_event s.world in
      let (err, handle, w₂) = create_pipe os pipename user_specific first invalid_handle_value w₁ in
      ground (arith, code_eq→eq (error_to_result_code err) ok)

  broken_off :
      (left : ℕ) (a : Agent) (s : State host)
      → let rc = (new_connection host a.pipename a.config.user_specific a.has_handler true s).0 in
        rc ≢ ok → (make_connections host (suc left) true ok a s).0 ≡ rc
  unfolding make_connections
  broken_off left a s failed =
      let m = new_connection host a.pipename a.config.user_specific a.has_handler true s in
      ground (arith, code_eq→eq m.0 ok)

  refused_code :
      (config : Config) (s : State host)
      → let (stop_event, w₁) = os.create_event s.world in
        let (pipename, w₂) = get_pipe_name_for_agent os config.name config.user_specific w₁ in
        let (event, w₃) = os.create_event w₂ in
        let (err, handle, w₄) =
          create_pipe os pipename config.user_specific true invalid_handle_value w₃ in
        (stop_event == null_handle) ≡ false
        → is_empty pipename ≡ false
        → (event == null_handle) ≡ false
        → error_to_result_code err ≢ ok
        → (new_agent host config true s).0 ≡ error_to_result_code err
  unfolding new_agent
  refused_code config s stopping named made failed =
      let (stop_event, w₁) = os.create_event s.world in
      let (pipename, w₂) = get_pipe_name_for_agent os config.name config.user_specific w₁ in
      let a : Agent = record {
        config = config;
        has_handler = true;
        pipename = pipename;
        connections = [];
        stop_event = stop_event;
      } in
      ground (
        arith,
        unmade_connection pipename config.user_specific true true (at host w₂ s) made failed,
        broken_off 1 a (at host w₂ s),
      )

  -- The constructor with a handler, a stop event, a pipe name and an event for the first connection
  -- sets the code that ErrorToResultCode gives for the error with which CreatePipe fails for that
  -- connection, if that code is not OK. HandleEvents of the agent then returns
  -- ERR_AGENT_NOT_INITIALIZED at once, in any state, and only tells the handler of it.
  pub new_agent_refused :
      (config : Config) (s t : State host) (rounds : ℕ)
      → let (stop_event, w₁) = os.create_event s.world in
        let (pipename, w₂) = get_pipe_name_for_agent os config.name config.user_specific w₁ in
        let (event, w₃) = os.create_event w₂ in
        let (err, handle, w₄) =
          create_pipe os pipename config.user_specific true invalid_handle_value w₃ in
        let (rc, a, s') = new_agent host config true s in
        (stop_event == null_handle) ≡ false
        → is_empty pipename ≡ false
        → (event == null_handle) ≡ false
        → error_to_result_code err ≢ ok
        → (rc ≡ error_to_result_code err)
          × (handle_events host (suc rounds) a t
              ≡ some (
                agent_not_initialized,
                a,
                notify_error host a (codes "GetHandles") agent_not_initialized t,
              ))
  new_agent_refused config s t rounds stopping named made failed =
      let code = refused_code config s stopping named made failed in
      (code, new_agent-handle_events config true s t rounds (λ fine. failed (sym code ∙ fine)))
