-- ===== src/Demo/Serving.antt =====
-- main of demo/agent.cc behind the command line: the agent from its creation to its destruction.
use content_analysis_sdk.Prelude.{
  ℕ, true, Option, none, some, [], ◌∷◌, ◌++◌, ◌≡◌, refl, arith, Text, codes, if◌then◌else◌,
}
use content_analysis_sdk.ResultCode.{ResultCode, ok, code_eq, result_code_to_string}
use content_analysis_sdk.Host.{Host, State}
use content_analysis_sdk.Connection.Sessions.{connects, disconnects}
use content_analysis_sdk.Agent.{Agent, Config, create, handle_events, shutdown}
use content_analysis_sdk.Agent.Debug.{debug_string}
use content_analysis_sdk.Agent.Clients.{IsTold, IdentifiesClients, shutdown-disconnects_all}
use content_analysis_sdk.Agent.Lifetime.{create-IsTold, handle_events-IsTold}
use content_analysis_sdk.Demo.CommandLine.{AgentOptions}
use content_analysis_sdk.Demo.Output.{endl, streamed}

-- What main returns and printed itself, and the state that it leaves.
pub record Exit (host : Host) : Type 0 where
  pub code : ℕ
  pub output : Text
  pub state : State host

module _ (host : Host) (show : ℕ → Text) where
  abbrev pub failure_line : Text → ResultCode → Text
  failure_line label rc = streamed (label ∷ result_code_to_string rc ∷ endl ∷ [])

  abbrev pub agent_line : Agent → Text
  agent_line a = streamed (codes "[Demo] " ∷ debug_string show a ∷ endl ∷ [])

  -- main behind Agent::Create, which returned `a`; none while HandleEvents still runs after so many
  -- events.
  unfoldable pub serve : ℕ → Agent → State host → Option (Exit host)
  serve events a s = elim (handle_events host events a s) [
    | none ↦ none
    | some (rc, a', s') ↦ some (record {
      code = 0;
      output =
          agent_line a
          ++ (if code_eq rc ok
              then []
              else failure_line (codes "[Demo] Error from handling events: ") rc ++ agent_line a');
      state = (shutdown host a' s').1;
    })
  ]

  unfoldable pub agent_main : ℕ → AgentOptions → State host → Option (Exit host)
  unfolding serve
  agent_main events o s =
      let config : Config = record { name = o.path; user_specific = o.user_specific } in
      let (rc, made, s₁) = create host config true s in
      let failed = failure_line (codes "[Demo] Error starting agent: ") rc in
      elim made [
        | none ↦ some (record { code = 1; output = failed; state = s₁ })
        | some a ↦
            if code_eq rc ok
            then serve events a s₁
            else some (record { code = 1; output = failed; state = (shutdown host a s₁).1 })
      ]

module _ (host : Host) (show : ℕ → Text) where
  serve_ends :
      (docs : IdentifiesClients host) (events : ℕ) (a : Agent) (s : State host) (r : Exit host)
      (ended : Option (ResultCode × Agent × State host))
      → IsTold host a s
      → handle_events host events a s ≡ ended
      → serve host show events a s ≡ some r
      → connects r.state.calls ≡ disconnects r.state.calls
  unfolding serve
  serve_ends docs events a s r none told e h = ground (arith, e)
  serve_ends docs events a s r (some (rc, a', s')) told e h =
      let told' = handle_events-IsTold host docs events a s rc a' s' told e in
      ground (arith, e, shutdown-disconnects_all host a' s' told')

  main_ends :
      (docs : IdentifiesClients host) (events : ℕ) (o : AgentOptions) (s : State host)
      (r : Exit host) (made : Option Agent)
      → let config : Config = record { name = o.path; user_specific = o.user_specific } in
        connects s.calls ≡ disconnects s.calls
        → (create host config true s).1 ≡ made
        → agent_main host show events o s ≡ some r
        → connects r.state.calls ≡ disconnects r.state.calls
  unfolding agent_main
  main_ends docs events o s r none even e h =
      let config : Config = record { name = o.path; user_specific = o.user_specific } in
      ground (arith, e, create-IsTold host config s none even e)
  main_ends docs events o s r (some a) even e h =
      let config : Config = record { name = o.path; user_specific = o.user_specific } in
      let s₁ = (create host config true s).2 in
      let told = create-IsTold host config s (some a) even e in
      ground (
        arith,
        e,
        serve_ends docs events a s₁ r _ told refl,
        shutdown-disconnects_all host a s₁ told,
      )

  -- Over the whole life of the demo's agent, from Create through any number of events to the
  -- destructor, with every way in which the loop can end: where the operating system can identify the
  -- clients of pipes, the handler was told of exactly as many disconnects as of connects when main
  -- ends, also where the agent could not be started.
  pub agent_main-disconnects_all :
      (docs : IdentifiesClients host) (events : ℕ) (o : AgentOptions) (s : State host)
      (r : Exit host)
      → connects s.calls ≡ disconnects s.calls
      → agent_main host show events o s ≡ some r
      → connects r.state.calls ≡ disconnects r.state.calls
  agent_main-disconnects_all docs events o s r even h = main_ends docs events o s r _ even refl h
