-- ===== src/ResultCode.antt =====
-- agent/include/content_analysis/sdk/result_codes.inc and result_codes.h, the conversion of
-- operating system errors in agent/src/agent_utils_win.cc, and ResultCodeToString of
-- agent/src/agent_base.cc.
pub mod Recoverable
use content_analysis_sdk.Prelude.{ℕ, Bool, Text, codes, ltb, ◌==◌, if◌then◌else◌}

-- `enum class ResultCode`, in the order of result_codes.inc.
pub data ResultCode : Type 0 where
  ok missing_result response_already_sent missing_request_token : ResultCode
  agent_not_initialized invalid_request_from_browser io_pending more_data : ResultCode
  cannot_get_browser_pid cannot_get_browser_binary_path broken_pipe unexpected : ResultCode
  first_unrecoverable_error agent_already_exists : ResultCode
  agent_event_handler_not_specified cannot_create_agent_stop_event : ResultCode
  invalid_channel_name cannot_create_channel_io_event : ResultCode

-- The number that the enumeration gives a code: its place in the list.
abbrev pub ordinal : ResultCode → ℕ
ordinal ok = 0
ordinal missing_result = 1
ordinal response_already_sent = 2
ordinal missing_request_token = 3
ordinal agent_not_initialized = 4
ordinal invalid_request_from_browser = 5
ordinal io_pending = 6
ordinal more_data = 7
ordinal cannot_get_browser_pid = 8
ordinal cannot_get_browser_binary_path = 9
ordinal broken_pipe = 10
ordinal unexpected = 11
ordinal first_unrecoverable_error = 12
ordinal agent_already_exists = 13
ordinal agent_event_handler_not_specified = 14
ordinal cannot_create_agent_stop_event = 15
ordinal invalid_channel_name = 16
ordinal cannot_create_channel_io_event = 17

-- `rc == other`, as the enumeration compares.
abbrev pub code_eq : ResultCode → ResultCode → Bool
code_eq a b = ordinal a == ordinal b

unfoldable pub is_recoverable_error : ResultCode → Bool
is_recoverable_error rc = ltb (ordinal rc) (ordinal first_unrecoverable_error)

-- The Windows error codes (winerror.h) that the program names.
abbrev pub error_success : ℕ
error_success = 0

abbrev pub error_invalid_function : ℕ
error_invalid_function = 1

abbrev pub error_access_denied : ℕ
error_access_denied = 5

abbrev pub error_broken_pipe : ℕ
error_broken_pipe = 109

abbrev pub error_insufficient_buffer : ℕ
error_insufficient_buffer = 122

abbrev pub error_invalid_name : ℕ
error_invalid_name = 123

abbrev pub error_pipe_not_connected : ℕ
error_pipe_not_connected = 233

abbrev pub error_more_data : ℕ
error_more_data = 234

abbrev pub error_pipe_connected : ℕ
error_pipe_connected = 535

abbrev pub error_io_pending : ℕ
error_io_pending = 997

unfoldable pub error_to_result_code : ℕ → ResultCode
error_to_result_code err =
    if err == error_success
    then ok
    else if err == error_access_denied
    then agent_already_exists
    else if err == error_broken_pipe
    then broken_pipe
    else if err == error_invalid_name
    then invalid_channel_name
    else if err == error_more_data
    then more_data
    else if err == error_io_pending
    then io_pending
    else unexpected

unfoldable pub result_code_to_string : ResultCode → Text
result_code_to_string ok = codes "Operation completed successfully."
result_code_to_string missing_result = codes "Response is missing a result message."
result_code_to_string response_already_sent =
    codes "A resonse has already been sent for this request."
result_code_to_string missing_request_token = codes "The request is missing a request token."
result_code_to_string agent_not_initialized =
    codes "The agent is not proplerly initialized to handle events."
result_code_to_string invalid_request_from_browser =
    codes "The browser sent an incorrectly formatted message."
result_code_to_string io_pending = codes "IO incomplete, the operation is still pending."
result_code_to_string more_data =
    codes "There is more data to read before the entire message has been received."
result_code_to_string cannot_get_browser_pid = codes "Cannot get process Id of browser."
result_code_to_string cannot_get_browser_binary_path =
    codes "Cannot get the full path to the brower's main binary file."
result_code_to_string broken_pipe = codes "Browser process has disconnected."
result_code_to_string unexpected = codes "An internal error has occured."
result_code_to_string first_unrecoverable_error = codes "Marker for the first unrecoverable error."
result_code_to_string agent_already_exists =
    codes "Another process is already running as an agent on this computer."
result_code_to_string agent_event_handler_not_specified =
    codes "An agent handler was not specified when creating an agent."
result_code_to_string cannot_create_agent_stop_event =
    codes "Could not create event to signal the agent to stop."
result_code_to_string invalid_channel_name =
    codes "Invalid channel name specified in Agent::Config."
result_code_to_string cannot_create_channel_io_event =
    codes "Could not create event to perform async IO with a client."
