-- ===== src/UnitTests/Agents.antt =====
-- The tests of agent/src/agent_win_unittest.cc that run in one thread. The calls of the handler that
-- the state of the agent keeps are counted, as TestHandler counts them.
use content_analysis_sdk.Prelude.{
  ℕ, suc, Bool, true, false, ◌&&◌, not, Option, none, some, List, [], ◌∷◌, Text, codes, text_eq,
  ◌==◌, if◌then◌else◌,
}
use content_analysis_sdk.ResultCode.{
  ResultCode, ok, agent_already_exists, agent_not_initialized, invalid_channel_name, code_eq,
}
use content_analysis_sdk.Proto.{ContentAnalysisRequest, text_content}
use content_analysis_sdk.Event.{BrowserInfo}
use content_analysis_sdk.Host.{
  Host, State, Callback, browser_connected, browser_disconnected, cancel_requests,
}
use content_analysis_sdk.Connection.{at, no_browser}
use content_analysis_sdk.Connection.Sessions.{connects, disconnects}
use content_analysis_sdk.Agent.{Agent, Config, new_agent, handle_one_event}
use content_analysis_sdk.Client.{
  Client, Outcome, returned, thrown, running, create as create_client, shutdown as close_client,
}
use content_analysis_sdk.UnitTests.Events.{empty_request}

-- BuildRequest.
pub build_request : Text → ContentAnalysisRequest
build_request content = record empty_request {
  request_token = some (codes "req-token");
  tags = codes "dlp" ∷ [];
  content_data = some (text_content content);
}

-- `cancel_count_` and `last_info_` of the handler, by its calls, of which the newest is first.
abbrev pub cancels : List Callback → ℕ
cancels [] = 0
cancels (cancel_requests c ∷ cs) = suc (cancels cs)
cancels (c ∷ cs) = cancels cs

abbrev pub last_info : List Callback → BrowserInfo
last_info [] = no_browser
last_info (browser_connected info ∷ cs) = info
last_info (browser_disconnected info ∷ cs) = info
last_info (c ∷ cs) = last_info cs

module _ (host : Host) where
  open host use {os}

  -- CreateAgent: an agent with a handler, and whether the code is the expected one.
  unfoldable pub create_agent : Config → ResultCode → State host → Bool × Agent × State host
  create_agent config expected s =
      let (rc, agent, s₁) = new_agent host config true s in (code_eq expected rc, agent, s₁)

  -- AgentTest, Create.
  unfoldable pub create : State host → Bool
  create s =
      let config : Config = record { name = codes "test"; user_specific = false } in
      let (expected, agent, s₁) = create_agent config ok s in
      expected && (text_eq config.name agent.config.name && not agent.config.user_specific)

  -- The assertions on an agent that cannot be created: its code, and that it handles no event.
  unfoldable pub refuses : Config → ResultCode → State host → Bool
  refuses config expected s =
      let (refused, agent, s₁) = create_agent config expected s in
      refused && code_eq (handle_one_event host agent s₁).0 agent_not_initialized

  -- AgentTest, Create_InvalidPipename.
  unfoldable pub create_invalid_pipename : State host → Bool
  unfolding refuses
  create_invalid_pipename s =
      refuses (record { name = []; user_specific = false }) invalid_channel_name s

  -- AgentTest, Create_SecondFails.
  unfoldable pub create_second_fails : State host → Bool
  unfolding refuses
  create_second_fails s =
      let config : Config = record { name = codes "test"; user_specific = false } in
      let (created, agent₁, s₁) = create_agent config ok s in
      created && refuses config agent_already_exists s₁

  -- The assertions of ConnectAndClose on the handler.
  abbrev counted : ℕ → ℕ → State host → Bool
  counted disconnected process s =
      (connects s.calls == 1)
      && ((disconnects s.calls == disconnected)
          && ((cancels s.calls == 0) && ((last_info s.calls).pid == process)))

  -- AgentTest, ConnectAndClose, from the creation of the client on; `process` is what
  -- GetCurrentProcessId returns.
  close_connected : ℕ → Agent → Client → State host → Bool
  close_connected process agent client s =
      let (rc, stopped, agent₁, s₁) = handle_one_event host agent s in
      let (client₁, w) = close_client os client s₁.world in
      let (rc₁, stopped₁, agent₂, s₂) = handle_one_event host agent₁ (at host w s₁) in
      text_eq (codes "test") client.config.name
      && (not client.config.user_specific && (counted 0 process s₁ && counted 1 process s₂))

  created : ℕ → Agent → State host → Outcome (Option Client × os.World) → Outcome Bool
  created process agent s (returned (some client, w)) =
      returned (close_connected process agent client (at host w s))
  created process agent s (returned (none, w)) = returned false
  created process agent s thrown = thrown
  created process agent s running = running

  pub connect_and_close : ℕ → ℕ → State host → Outcome Bool
  unfolding close_connected created
  connect_and_close rounds process s =
      let config : Config = record { name = codes "test"; user_specific = false } in
      let (expected, agent, s₁) = create_agent config ok s in
      let connecting =
        create_client os rounds (record { name = codes "test"; user_specific = false }) s₁.world in
      if expected then created process agent s₁ connecting else returned false
