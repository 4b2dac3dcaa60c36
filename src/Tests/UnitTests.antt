-- ===== src/Tests/UnitTests.antt =====
-- The unit tests of the repository, and agents that cannot be created.
use content_analysis_sdk.Prelude.{◌≡◌, refl, true, false, some, [], codes}
use content_analysis_sdk.ResultCode.{
  invalid_channel_name, agent_not_initialized, error_to_result_code,
}
use content_analysis_sdk.Windows.{Windows, invalid_handle_value}
use content_analysis_sdk.PipeName.{create_pipe, get_pipe_name_for_agent, build_pipe_name}
use content_analysis_sdk.Host.{Host, State}
use content_analysis_sdk.Connection.{
  new_connection, reset_internal, obtain_pipe, reset_and_connect, connect_pipe,
}
use content_analysis_sdk.Agent.{
  Config, new_agent, make_connections, handle_events, handle_one_event, notify_error, get_handles,
  events_of, shutdown,
}
use content_analysis_sdk.Agent.Refusing.{new_agent_refused}
use content_analysis_sdk.UnitTests.Agents.{
  create as create_test, create_invalid_pipename, create_agent, refuses,
}
use content_analysis_sdk.Tests.Fake.{fake, idle, host, cancelling}

-- An operating system that finds no pipe name valid.
abbrev refusing : Windows
refusing = record fake {
  create_named_pipe = λ name mode pipe_mode instances size descriptor w.
      (invalid_handle_value, record w { last_error = 123 });
}

abbrev refusing_host : Host
refusing_host = record { os = refusing; pb = cancelling; handler = λ c w. w }

abbrev refused : State refusing_host
refused = record { world = idle; calls = [] }

abbrev config : Config
config = record { name = []; user_specific = false }

new_agent_refused_example :
    let (rc, a, s') = new_agent refusing_host config true refused in
    (rc ≡ invalid_channel_name)
    × (handle_events refusing_host 1 a refused
        ≡ some (
          agent_not_initialized,
          a,
          notify_error refusing_host a (codes "GetHandles") agent_not_initialized refused,
        ))
unfolding create_pipe get_pipe_name_for_agent build_pipe_name error_to_result_code
new_agent_refused_example =
    new_agent_refused refusing_host config refused refused 0 refl refl refl (λ e. cc e)

-- AgentTest, Create, on the operating system of the tests.
passes_create : create_test host (record { world = idle; calls = [] }) ≡ true
unfolding create_test create_agent new_agent make_connections new_connection reset_internal
    obtain_pipe reset_and_connect connect_pipe create_pipe get_pipe_name_for_agent build_pipe_name
    error_to_result_code
passes_create = refl

-- AgentTest, Create_InvalidPipename.
passes_create_invalid_pipename : create_invalid_pipename refusing_host refused ≡ true
unfolding create_invalid_pipename refuses create_agent new_agent make_connections new_connection
    reset_internal obtain_pipe reset_and_connect connect_pipe create_pipe get_pipe_name_for_agent
    build_pipe_name error_to_result_code handle_one_event get_handles events_of shutdown
passes_create_invalid_pipename = refl
