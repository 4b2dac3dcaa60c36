-- ===== src/Agent/Lifetime.antt =====
-- From Agent::Create through HandleEvents to the destructor of the agent (agent/src/agent_win.cc).
use content_analysis_sdk.Prelude.{
  ℕ, zero, suc, Bool, true, false, none, some, Option, [], ◌∷◌, ◌++◌, ◌≡◌, arith,
}
use content_analysis_sdk.ResultCode.{ResultCode, ok}
use content_analysis_sdk.Host.{Host, State}
use content_analysis_sdk.PipeName.{get_pipe_name_for_agent}
use content_analysis_sdk.Connection.{new_connection, at}
use content_analysis_sdk.Connection.Sessions.{connects, disconnects}
use content_analysis_sdk.Connection.Resetting.{new_connection_calls}
use content_analysis_sdk.Agent.{
  Agent, Config, make_connections, new_agent, create, handle_one_event, handle_events,
  min_num_listening_pipe_instances,
}
use content_analysis_sdk.Agent.Counts.{AllHandled-append, connected-append}
use content_analysis_sdk.Agent.Clients.{
  IsTold, IdentifiesClients, handle_one_event-IsTold, shutdown-disconnects_all, shutdown-IsTold,
}

module _ (host : Host) where
  open host use {os}

  make_connections-IsTold :
      (left : ℕ) (first : Bool) (rc : ResultCode) (a : Agent) (s : State host)
      → IsTold host a s
      → let r = make_connections host left first rc a s in IsTold host r.1 r.2
  unfolding make_connections
  make_connections-IsTold zero first rc a s told = told
  make_connections-IsTold (suc left) first rc a s told =
      let made = new_connection host a.pipename a.config.user_specific a.has_handler first s in
      let a₁ = record a { connections = a.connections ++ (made.1 ∷ []) } in
      let told₁ : IsTold host a₁ made.2 = ground (
        arith,
        told.handled,
        new_connection_calls host a.pipename a.config.user_specific a.has_handler first s,
        AllHandled-append a.connections made.1,
        connected-append a.connections (made.1 ∷ []),
      ) in
      ground (
        arith,
        told₁,
        shutdown-IsTold host a₁ made.2 told₁,
        make_connections-IsTold left false made.0 a₁ made.2 told₁,
      )

  new_agent-IsTold :
      (config : Config) (s : State host)
      → connects s.calls ≡ disconnects s.calls
      → let r = new_agent host config true s in IsTold host r.1 r.2
  unfolding new_agent
  new_agent-IsTold config s even =
      let (event, w₁) = os.create_event s.world in
      let (pipename, w₂) = get_pipe_name_for_agent os config.name config.user_specific w₁ in
      let a : Agent = record {
        config = config;
        has_handler = true;
        pipename = pipename;
        connections = [];
        stop_event = event;
      } in
      ground
        (arith, make_connections-IsTold min_num_listening_pipe_instances true ok a (at host w₂ s))

  -- What is kept of an agent, or of none.
  abbrev pub Told : Option Agent → State host → Type 0
  Told none s = connects s.calls ≡ disconnects s.calls
  Told (some a) s = IsTold host a s

  pub create-IsTold :
      (config : Config) (s : State host) (made : Option Agent)
      → connects s.calls ≡ disconnects s.calls
      → (create host config true s).1 ≡ made
      → Told made (create host config true s).2
  unfolding create
  create-IsTold config s none even e =
      let r = new_agent host config true s in
      let told = new_agent-IsTold config s even in
      ground (arith, shutdown-disconnects_all host r.1 r.2 told)
  create-IsTold config s (some a) even e =
      let told = new_agent-IsTold config s even in ground (arith, told)

  pub handle_events-IsTold :
      (docs : IdentifiesClients host) (events : ℕ) (a : Agent) (s : State host) (rc : ResultCode)
      (a' : Agent) (s' : State host)
      → IsTold host a s
      → handle_events host events a s ≡ some (rc, a', s')
      → IsTold host a' s'
  unfolding handle_events
  handle_events-IsTold docs zero a s rc a' s' told e = ground arith
  handle_events-IsTold docs (suc events) a s rc a' s' told e =
      let r = handle_one_event host a s in
      let told' = handle_one_event-IsTold host docs a s told in
      ground (arith, told', handle_events-IsTold docs events r.2 r.3 rc a' s' told')
