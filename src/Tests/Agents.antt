-- ===== src/Tests/Agents.antt =====
-- Runs of the agent.
use content_analysis_sdk.Prelude.{◌≡◌, refl, true, [], ◌∷◌, ◌⊎◌, some, get_elem?, Text, ◌++◌}
use content_analysis_sdk.PipeName.{
  get_pipe_name_for_agent, get_pipe_name_for_client, pipe_prefix_for_agent, pipe_prefix_for_client,
}
use content_analysis_sdk.Host.{State, browser_connected}
use content_analysis_sdk.Connection.{Connection}
use content_analysis_sdk.Agent.{handle_one_event}
use content_analysis_sdk.PipeName.Agreement.{get_pipe_name_for_client_lem}
use content_analysis_sdk.Agent.Listening.{listening, listening-handle_one_event}
use content_analysis_sdk.Agent.Isolation.{Affects, handle_one_event-Affects}
use content_analysis_sdk.Agent.Clients.{IsTold, handle_one_event-IsTold}
use content_analysis_sdk.Tests.Fake.{fake, idle, host, browser, agent, fake_identifies}

-- The browser of the third connection is gone.
abbrev gone : State host
gone = record { world = record idle { signalled = 2 }; calls = browser_connected browser ∷ [] }

abbrev stopping : State host
stopping = record { world = record idle { signalled = 3 }; calls = [] }

listening-handle_one_event_example : listening (handle_one_event host agent gone).2.connections ≡ 2
listening-handle_one_event_example = listening-handle_one_event host agent gone refl

agent-IsTold : IsTold host agent gone
agent-IsTold = record { handled = (refl, (refl, (refl, tt))); handler = refl; balance = refl }

handle_one_event-IsTold_example :
    IsTold host (handle_one_event host agent gone).2 (handle_one_event host agent gone).3
handle_one_event-IsTold_example =
    handle_one_event-IsTold host fake_identifies agent gone agent-IsTold

get_pipe_name_for_client_lem_example :
    let (agent_name, w₁) = get_pipe_name_for_agent fake (9 ∷ []) true idle in
    let (client_name, w₂) = get_pipe_name_for_client fake (9 ∷ []) true idle in
    (w₁ ≡ w₂)
    × (((agent_name ≡ []) × (client_name ≡ []))
        ⊎ ((suffix : Text) × (agent_name ≡ pipe_prefix_for_agent ++ suffix)
            × (client_name ≡ pipe_prefix_for_client ++ suffix)))
get_pipe_name_for_client_lem_example = get_pipe_name_for_client_lem fake (9 ∷ []) true idle

-- The connection of the browser that is gone is removed, and no other one is changed.
handle_one_event-Affects_example :
    let after = (handle_one_event host agent gone).2.connections in
    (after ≡ agent.connections)
    ⊎ ((c : Connection) × (get_elem? agent.connections 2 ≡ some c)
        × Affects 2 c agent.connections after)
handle_one_event-Affects_example = handle_one_event-Affects host agent gone
