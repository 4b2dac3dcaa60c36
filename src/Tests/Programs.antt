-- ===== src/Tests/Programs.antt =====
-- Runs of the library's client and of the programs of demo/.
use content_analysis_sdk.Prelude.{
  ◌≡◌, ◌≢◌, ◌⊎◌, refl, true, false, none, some, List, [], ◌∷◌, arith, codes, length, Option,
  replicate, ltb, map, if◌then◌else◌, ℕ, Bool, ◌==◌, get_or_default,
}
use content_analysis_sdk.ResultCode.{ResultCode, ok, error_to_result_code}
use content_analysis_sdk.Windows.{Windows, wait_failed}
use content_analysis_sdk.Proto.{ContentAnalysisResponse, Protobuf, FinalAction}
use content_analysis_sdk.Host.{Host, State}
use content_analysis_sdk.Connection.Sessions.{connects, disconnects}
use content_analysis_sdk.PipeName.{create_pipe, get_pipe_name_for_agent, build_pipe_name}
use content_analysis_sdk.Connection.{
  reset_internal, new_connection, obtain_pipe, reset_and_connect, connect_pipe,
}
use content_analysis_sdk.Agent.{
  Agent, handle_events, handle_one_event, create, new_agent, get_handles, events_of,
  make_connections,
}
use content_analysis_sdk.Agent.Bounds.{RefusesTooMany, handle_events_full}
use content_analysis_sdk.Agent.Stopping.{first_index, ReportsFirst, handle_events-stops}
use content_analysis_sdk.Client.{Client, read_once, write_message_to_pipe, acknowledge}
use content_analysis_sdk.Client.Sending.{send-Delivers}
use content_analysis_sdk.Demo.Handler.{blocked}
use content_analysis_sdk.Demo.Grouping.{
  Exchange, start, handle_all, group_acks, build_acknowledgement,
}
use content_analysis_sdk.Demo.CommandLine.{ClientOptions, client_defaults, agent_defaults}
use content_analysis_sdk.Demo.Serving.{Exit, serve, agent_main, agent_main-disconnects_all}
use content_analysis_sdk.Demo.Session.{Run, continues, handle_request, run_session}
use content_analysis_sdk.Demo.Session.Grouped.{
  SendReturns, Conducts, contents, content_for, acknowledged, run_session-handle_all,
}
use content_analysis_sdk.Demo.Handler.{response_for}
use content_analysis_sdk.Conversation.Answers.{handle_request_judged}
use content_analysis_sdk.Tests.Fake.{
  World, fake, idle, host, request, agent, listener, fake_identifies,
}

-- Every message of the agent is parsed as the response that blocks the request of the tests.
abbrev pub blocking : ContentAnalysisResponse
blocking = response_for blocked request

abbrev pub replies : Protobuf
replies = record {
  serialize_chrome_to_agent = λ m. 1 ∷ [];
  parse_chrome_to_agent = λ bytes. none;
  parse_negative = λ size buffer. none;
  serialize_agent_to_chrome = λ m. 9 ∷ [];
  parse_agent_to_chrome = λ bytes. some (record { response = some blocking });
}

abbrev pub client : Client
client = record {
  config = record { name = 9 ∷ []; user_specific = false };
  agent_info = record { pid = 88; binary_path = [] };
  pipe = 20;
}

abbrev answering : World
answering = record idle { reads = record { success = true; bytes = 9 ∷ []; error = 0 } ∷ [] }

-- The request is written and the answer is read.
abbrev answered_world : World
answered_world = record idle { sent = 1 ∷ []; outgoing = 1 ∷ [] }

abbrev running_client : Run World
running_client = record {
  globals = start;
  request_token_number = 5;
  output = [];
  world = answering;
}

handle_request_judged_example :
    (t : Run World) × (handle_request fake replies client 1 client_defaults
        (λ w. 1000)
        (λ n. [])
        request
        running_client
      ≡ continues t)
    × (t.globals ≡ start)
    × (t.world
        ≡ (acknowledge fake replies client
            (build_acknowledgement (1 ∷ 2 ∷ []) FinalAction.block)
            answered_world).1)
unfolding read_once write_message_to_pipe
handle_request_judged_example =
    handle_request_judged fake replies client 1 client_defaults (λ w. 1000) (λ n. []) blocked
      request [] (9 ∷ []) running_client answered_world refl refl refl
      (refl, refl, omega arith, refl) (omega arith) refl (omega arith) refl

-- The operating system of the tests, with the documented limit.
abbrev limited : Windows
limited = record fake {
  wait_for_multiple_objects = λ handles w.
      if ltb 64 (length handles)
      then (wait_failed, record w { last_error = 87 })
      else (w.signalled, w);
}

limited-RefusesTooMany : RefusesTooMany limited
limited-RefusesTooMany = λ handles w h. ground arith

abbrev limited_host : Host
limited_host = record { os = limited; pb = replies; handler = λ c w. w }

abbrev crowded : Agent
crowded = record agent { connections = replicate 64 listener }

abbrev crowding : State limited_host
crowding = record { world = idle; calls = [] }

handle_events_full_example :
    (rc : ResultCode) × (s' : State limited_host) × (handle_events limited_host 1 crowded crowding
      ≡ some (rc, crowded, s'))
    × (rc ≢ ok)
handle_events_full_example =
    handle_events_full limited_host limited-RefusesTooMany 0 crowded crowding (omega arith)

-- Both connections listen, and then the stop event is signalled.
abbrev stopping : State host
stopping = record { world = record idle { signalled = 2 }; calls = [] }

abbrev result : Option (Exit host) → Exit host
result none = record { code = 7; output = []; state = stopping }
result (some r) = r

abbrev main_result : Exit host
main_result = result (agent_main host (λ h. []) 1 agent_defaults stopping)

agent_main-disconnects_all_example :
    connects main_result.state.calls ≡ disconnects main_result.state.calls
unfolding agent_main serve handle_events handle_one_event get_handles events_of create new_agent
    make_connections new_connection reset_internal obtain_pipe reset_and_connect connect_pipe
    create_pipe get_pipe_name_for_agent build_pipe_name error_to_result_code
agent_main-disconnects_all_example =
    agent_main-disconnects_all host (λ h. []) fake_identifies 1 agent_defaults stopping main_result
      refl refl

-- Reads and writes that complete at once, and an agent that blocks everything.
abbrev immediate : Windows
immediate = record fake {
  write_file = λ h bytes w. (true, w);
  read_file = λ h size w. (true, 9 ∷ [], w);
}

abbrev grouped : ClientOptions
grouped = record client_defaults { group = true; datas = codes "one" ∷ codes "@two" ∷ [] }

immediate-SendReturns : SendReturns immediate replies client 1 grouped (λ w. 1000) (λ n. [])
unfolding read_once write_message_to_pipe
immediate-SendReturns = λ request w. (
  some blocking,
  immediate.close_handle 10 w,
  send-Delivers immediate replies 1 client request blocking [] (9 ∷ []) w w refl refl
      (refl, refl, omega arith, refl) (omega arith) refl (omega arith) refl,
)

run_session-handle_all_example :
    (exchanges : List Exchange) × (t : Run World) × (w' : World) × (run_session immediate replies
        client 1 grouped
        (λ w. 1000)
        (λ n. [])
        5
        idle
      ≡ continues t)
    × (contents exchanges ≡ map content_for (codes "one" ∷ codes "@two" ∷ []))
    × (t.globals ≡ handle_all true exchanges start)
    × Conducts immediate replies client 1 grouped
        (λ w. 1000)
        (λ n. [])
        (codes "one" ∷ codes "@two" ∷ [])
        5
        idle
        exchanges
        w'
    × (t.world
        ≡ acknowledged immediate replies client 1 grouped
            (λ w. 1000)
            (λ n. [])
            (group_acks t.globals)
            w')
run_session-handle_all_example =
    run_session-handle_all immediate replies client 1 grouped (λ w. 1000) (λ n. [])
      immediate-SendReturns 5 idle (refl, (refl, tt))

-- The operating system of the tests, with an event that is signalled exactly if it is the number that
-- the world gives; the wait reports the first such handle.
abbrev is_signalled : ℕ → World → Bool
is_signalled h w = h == w.signalled

abbrev waiting_os : Windows
waiting_os = record fake {
  wait_for_multiple_objects =
      λ handles w. (get_or_default (first_index (λ h. is_signalled h w) handles) 258, w);
}

waiting_os-ReportsFirst : ReportsFirst waiting_os is_signalled
waiting_os-ReportsFirst = record { reported = λ handles w i few e. ground (arith, e) }

abbrev waiting_host : Host
waiting_host = record { os = waiting_os; pb = replies; handler = λ c w. w }

abbrev stop_asked : State waiting_host
stop_asked = record { world = record idle { signalled = 13 }; calls = [] }

handle_events-stops_example :
    ((handle_one_event waiting_host agent stop_asked).1 ≡ true)
    × ((false ≡ true)
        ⊎ (handle_events waiting_host 5 agent stop_asked ≡ some (ok, agent, stop_asked)))
unfolding events_of
handle_events-stops_example =
    handle_events-stops waiting_host is_signalled waiting_os-ReportsFirst agent stop_asked
      (11 ∷ 11 ∷ 12 ∷ []) 4 refl (omega arith) (omega arith) refl
