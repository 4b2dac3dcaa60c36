-- ===== src/Client.antt =====
-- browser/src/client_win.cc, client_win.h and client_base.cc: the browser's end of the pipe.
pub mod Connecting
pub mod Receiving
pub mod Messages
pub mod Balance
pub mod Sending
use content_analysis_sdk.Prelude.{
  ℕ, zero, suc, ◌+◌, ◌-◌, ◌*◌, ◌/◌, ◌%◌, ◌^◌, ◌<◌, Bool, true, false, ◌&&◌, not, Option, none, some,
  List, [], ◌∷◌, Text, length, take, drop, replicate, is_empty, get_or_default, ltb, ◌==◌,
  if◌then◌else◌,
}
use content_analysis_sdk.ResultCode.{
  error_success, error_invalid_function, error_io_pending, error_more_data,
  error_pipe_not_connected,
}
use content_analysis_sdk.Proto.{
  ContentAnalysisRequest, ContentAnalysisResponse, ContentAnalysisAcknowledgement,
  ContentAnalysisCancelRequests, ChromeToAgent, AgentToChrome, Protobuf, empty_chrome_to_agent,
  response_of,
}
use content_analysis_sdk.Windows.{Windows, null_handle, invalid_handle_value, dword}
use content_analysis_sdk.PipeName.{
  buffer_size, pipe_prefix_for_client, get_pipe_name_for_client, get_process_path,
}
use content_analysis_sdk.Connection.{resize, overwrite}

pub record Config : Type 0 where
  pub name : Text
  pub user_specific : Bool

pub record AgentInfo : Type 0 where
  pub pid : ℕ
  pub binary_path : Text

-- ClientWin with the members of ClientBase; `pipe` is `hPipe_`.
pub record Client : Type 0 where
  pub config : Config
  pub agent_info : AgentInfo
  pub pipe : ℕ

abbrev pub status_success : ℕ
status_success = 0

abbrev pub status_pipe_not_available : ℕ
status_pipe_not_available = 0xc00000ac

abbrev pub status_io_timeout : ℕ
status_io_timeout = 0xc00000b5

-- What a function with a loop gives: a result, the exception of `std::vector`, or nothing yet
-- after so many rounds.
pub data Outcome (A : Type 0) : Type 0 where
  returned : A → Outcome A
  thrown running : Outcome A

-- The characters of a UNICODE_STRING whose Length, an unsigned number of 16 bits, counts bytes.
pub unicode_string : List ℕ → List ℕ
unicode_string name = take ((length name * 2) % 2 ^ 16 / 2) name

module _ (os : Windows) where
  open os use {
    World, get_last_error, create_event, close_handle, read_file, read_result, write_file,
    write_result, flush_file_buffers, server_process_id, find_nt_create_file,
    find_nt_fs_control_file, multi_byte_to_wide_char, nt_create_file, open_device, wait_for_pipe,
    set_message_read_mode,
  }

  -- WaitForPipeAvailability. Its `return false` is the status 0.
  unfoldable pub wait_for_pipe_availability : List ℕ → World → ℕ × World
  wait_for_pipe_availability path w =
      let (can_create, w₁) = find_nt_create_file w in
      let (can_control, w₂) = find_nt_fs_control_file w₁ in
      let device_name = take (length pipe_prefix_for_client) path in
      let pipe_name = drop (length pipe_prefix_for_client) path in
      let (opened, h, w₃) = open_device device_name invalid_handle_value w₂ in
      let (waited, w₄) = wait_for_pipe h pipe_name w₃ in
      if can_create
      then if can_control
        then if opened == status_success then (waited, close_handle h w₄) else (0, w₃)
        else (0, w₂)
      else (0, w₁)

  -- One read of ReadNextMessageFromPipe: the error, or none if the message is complete, and the
  -- bytes that were read.
  unfoldable pub read_once : ℕ → World → Option ℕ × Text × World
  read_once pipe w =
      let (done, bytes, w₁) = read_file pipe buffer_size w in
      let (completed, bytes', w₂) = read_result pipe w₁ in
      if done
      then (none, bytes, w₁)
      else if get_last_error w₁ == error_io_pending
      then if completed then (none, bytes', w₂) else (some (get_last_error w₂), bytes', w₂)
      else (some (get_last_error w₁), bytes, w₁)

  -- `buffer.resize(final_size)`: a negative `int` is too large a size.
  pub finish : ℕ → Text → World → Outcome (Text × World)
  finish final_size buffer w =
      if ltb final_size (2 ^ 31) then returned (resize final_size buffer, w) else thrown

  -- The loop of ReadNextMessageFromPipe; `p` is a place in the buffer.
  pub read_loop : ℕ → ℕ → Text → ℕ → ℕ → World → Outcome (Text × World)
  read_loop zero pipe buffer p final_size w = running
  read_loop (suc rounds) pipe buffer p final_size w =
      let (err, bytes, w₁) = read_once pipe w in
      let buffer₁ = overwrite p bytes buffer in
      let size = (final_size + length bytes) % dword in
      let grown = resize (length buffer₁ + buffer_size) buffer₁ in
      let more = read_loop rounds pipe grown (length grown - buffer_size) size w₁ in
      elim err [
        | none ↦ finish size buffer₁ w₁
        | some e ↦ if e == error_more_data then more else finish 0 buffer₁ w₁
      ]

  pub read_next_message_from_pipe : ℕ → ℕ → World → Outcome (Text × World)
  read_next_message_from_pipe rounds pipe w = read_loop rounds pipe (replicate buffer_size 0) 0 0 w

  -- The client's WriteMessageToPipe.
  unfoldable pub write_message_to_pipe : ℕ → Text → World → Bool × World
  write_message_to_pipe pipe message w =
      let (written, w₁) = write_file pipe message w in
      let (completed, count, w₂) = write_result pipe w₁ in
      if is_empty message
      then (false, w)
      else if written
      then (true, w₁)
      else if get_last_error w₁ == error_io_pending
      then (completed, w₂)
      else (false, w₁)

  -- The loop of ConnectToPipe: open the pipe, or wait until it is available.
  pub connect_loop : ℕ → List ℕ → ℕ → World → Outcome (ℕ × ℕ × World)
  connect_loop zero name h w = running
  connect_loop (suc rounds) name h w =
      let (sts, h₁, w₁) = nt_create_file name h w in
      let (waited, w₂) = wait_for_pipe_availability name w₁ in
      let again = connect_loop rounds name h₁ w₂ in
      if sts == status_success
      then returned (sts, h₁, w₁)
      else if sts == status_pipe_not_available
      then if waited == status_io_timeout then again else returned (waited, h₁, w₂)
      else returned (sts, h₁, w₁)

  -- What follows the loop: the error, the handle that the caller gets, and the state.
  pub enter_message_mode : ℕ → ℕ × ℕ × World → ℕ × ℕ × World
  enter_message_mode old (sts, h, w) =
      let (set, w₁) = set_message_read_mode h w in
      if sts == status_success
      then if set then (error_success, h, w₁) else (get_last_error w₁, old, close_handle h w₁)
      else (error_pipe_not_connected, old, w)

  abbrev pub map_outcome : {A B : Type 0} → (A → B) → Outcome A → Outcome B
  map_outcome f (returned a) = returned (f a)
  map_outcome f thrown = thrown
  map_outcome f running = running

  -- ConnectToPipe, with the value `old` of the handle that it sets.
  pub connect_to_pipe : ℕ → Text → ℕ → World → Outcome (ℕ × ℕ × World)
  connect_to_pipe rounds pipename old w =
      let (found, w₁) = find_nt_create_file w in
      let (wide, w₂) = multi_byte_to_wide_char pipename w₁ in
      let loop = connect_loop rounds (unicode_string wide) invalid_handle_value w₂ in
      if found
      then if is_empty wide
        then returned (get_last_error w₂, old, w₂)
        else map_outcome (enter_message_mode old) loop
      else returned (error_invalid_function, old, w₁)

  pub shutdown : Client → World → Client × World
  shutdown c w = if c.pipe == invalid_handle_value then (c, w) else (
    record c { pipe = invalid_handle_value },
    close_handle c.pipe (flush_file_buffers c.pipe w),
  )

  -- The constructor behind ConnectToPipe: whether it set `rc` to 0.
  identify_agent : Client → ℕ × ℕ × World → Bool × Client × World
  identify_agent c (err, handle, w) =
      let c₁ = record c { pipe = handle } in
      let (pid, w₁) = server_process_id handle w in
      let agent = get_or_default pid 0 in
      let (path, w₂) = get_process_path os agent w₁ in
      let info : AgentInfo = record {
        pid = agent;
        binary_path = get_or_default path c.agent_info.binary_path;
      } in
      if err == error_success
      then elim pid [
        | none ↦ (false, c₁, w₁)
        | some p ↦ (true, record c₁ { agent_info = info }, w₂)
      ]
      else (false, c₁, w)

  abbrev connected_or_shut : Bool × Client × World → Option Client × World
  connected_or_shut (true, c, w) = (some c, w)
  connected_or_shut (false, c, w) = (none, (shutdown c w).1)

  -- Client::Create.
  pub create : ℕ → Config → World → Outcome (Option Client × World)
  create rounds config w =
      let c : Client = record {
        config = config;
        agent_info = record { pid = 0; binary_path = [] };
        pipe = invalid_handle_value;
      } in
      let (pipename, w₁) = get_pipe_name_for_client os config.name config.user_specific w in
      let connecting = connect_to_pipe rounds pipename c.pipe w₁ in
      if is_empty pipename
      then returned (none, w₁)
      else map_outcome (λ r. connected_or_shut (identify_agent c r)) connecting

  module _ (pb : Protobuf) where
    open pb use {serialize_chrome_to_agent, parse_agent_to_chrome}

    -- The common part of Send, Acknowledge and CancelRequests, up to the result of the write. The
    -- event of ScopedOverlapped is given to what follows, which closes it.
    pub transmit : Client → ChromeToAgent → World → Bool × ℕ × World
    transmit c message w =
        let (event, w₁) = create_event w in
        let (success, w₂) = write_message_to_pipe c.pipe (serialize_chrome_to_agent message) w₁ in
        if event == null_handle then (false, event, w₁) else (success, event, w₂)

    pub close_event : ℕ → World → World
    close_event event w = if event == null_handle then w else close_handle event w

    -- `Acknowledge` and `CancelRequests`: whether they return 0.
    pub acknowledge : Client → ContentAnalysisAcknowledgement → World → Bool × World
    acknowledge c ack w =
        let (success, event, w₁) = transmit c (record empty_chrome_to_agent { ack = some ack }) w in
        (success, close_event event w₁)

    pub cancel_requests : Client → ContentAnalysisCancelRequests → World → Bool × World
    cancel_requests c cancel w =
        let (success, event, w₁) =
          transmit c (record empty_chrome_to_agent { cancel = some cancel }) w in
        (success, close_event event w₁)

    -- The second half of Send: the response, or none where Send returns -1.
    pub understand : ℕ → Text × World → Option ContentAnalysisResponse × World
    understand event (buffer, w) =
        let w₁ = close_event event w in
        if is_empty buffer then (none, w₁) else elim (parse_agent_to_chrome buffer) [
          | none ↦ (none, w₁)
          | some message ↦ (some (response_of message), w₁)
        ]

    pub send :
        ℕ
        → Client
        → ContentAnalysisRequest
        → World
        → Outcome (Option ContentAnalysisResponse × World)
    send rounds c request w =
        let (success, event, w₁) =
          transmit c (record empty_chrome_to_agent { request = some request }) w in
        let reading = read_next_message_from_pipe rounds c.pipe w₁ in
        if success
        then map_outcome (understand event) reading
        else returned (none, close_event event w₁)
