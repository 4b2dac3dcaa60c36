-- ===== src/Connection.antt =====
-- AgentWin::Connection of agent/src/agent_win.cc and agent_win.h: one pipe, which listens for a
-- browser or reads the messages of one.
pub mod Reading
pub mod Buffer
pub mod Reassembly
pub mod Sessions
pub mod Resetting
use content_analysis_sdk.Prelude.{
  ℕ, zero, suc, ◌+◌, ◌-◌, ◌%◌, Bool, true, false, ◌&&◌, not, Option, none, some, List, [], ◌∷◌,
  ◌++◌, Text, codes, decimal, length, take, replicate, ◌==◌, if◌then◌else◌,
}
use content_analysis_sdk.ResultCode.{
  ResultCode, ok, io_pending, more_data, broken_pipe, invalid_request_from_browser,
  cannot_get_browser_pid, cannot_get_browser_binary_path, cannot_create_channel_io_event, code_eq,
  error_success, error_io_pending, error_pipe_connected, error_more_data, error_to_result_code,
}
use content_analysis_sdk.Proto.{ChromeToAgent, ContentAnalysisRequest}
use content_analysis_sdk.Windows.{null_handle, invalid_handle_value, dword}
use content_analysis_sdk.Event.{BrowserInfo, Event, create, init, shutdown}
use content_analysis_sdk.PipeName.{buffer_size, create_pipe, get_process_path}
use content_analysis_sdk.Host.{
  Host, State, call, browser_connected, browser_disconnected, analysis_requested,
  response_acknowledged, cancel_requests, internal_error,
}

-- `event` is `overlapped_.hEvent`; `cursor` is the place in `buffer` that `cursor_` points to.
pub record Connection : Type 0 where
  pub has_handler : Bool
  pub handle : ℕ
  pub event : ℕ
  pub is_connected : Bool
  pub browser_info : BrowserInfo
  pub buffer : Text
  pub cursor : Option ℕ
  pub read_size : ℕ
  pub final_size : ℕ

abbrev pub no_browser : BrowserInfo
no_browser = record { pid = 0; binary_path = [] }

abbrev pub is_valid : Connection → Bool
is_valid c = not (c.handle == invalid_handle_value)

-- A connection as the constructor initialises it, before its pipe is opened.
abbrev pub unopened : Bool → ℕ → Connection
unopened has_handler event = record {
  has_handler = has_handler;
  handle = invalid_handle_value;
  event = event;
  is_connected = false;
  browser_info = no_browser;
  buffer = [];
  cursor = none;
  read_size = 0;
  final_size = 0;
}

-- `buffer_.resize(n)`.
unfoldable pub resize : ℕ → Text → Text
resize zero xs = []
resize (suc n) [] = 0 ∷ resize n []
resize (suc n) (x ∷ xs) = x ∷ resize n xs

-- The operating system puts bytes at a place of the buffer, inside its bounds.
unfoldable pub overwrite : ℕ → Text → Text → Text
overwrite place bytes [] = []
overwrite (suc place) bytes (x ∷ xs) = x ∷ overwrite place bytes xs
overwrite zero [] (x ∷ xs) = x ∷ xs
overwrite zero (b ∷ bytes) (x ∷ xs) = b ∷ overwrite zero bytes xs

abbrev pub receive : Text → Connection → Connection
receive bytes c = elim c.cursor [
  | none ↦ c
  | some place ↦ record c { buffer = overwrite place bytes c.buffer }
]

module _ (host : Host) where
  open host use {os, pb}
  open os use {
    World, get_last_error, create_event, set_event, reset_event, close_handle, connect_named_pipe,
    disconnect_named_pipe, client_process_id, read_file, read_result, cancel_io,
  }
  open pb use {parse_chrome_to_agent}

  abbrev pub at : World → State host → State host
  at w s = record s { world = w }

  error_context : Connection → Text → ℕ → Text
  error_context c context err =
      let start = context ++ (codes " pid=" ++ decimal c.browser_info.pid) in
      if err == error_success then start else start ++ (context ++ (codes " err=" ++ decimal err))

  -- NotifyIfError, which returns the code that it is given.
  pub notify_if_error : Connection → Text → ResultCode → ℕ → State host → State host
  notify_if_error c context rc err s =
      if c.has_handler && not (code_eq rc ok)
      then call host (internal_error (error_context c context err) rc) s
      else s

  pub cleanup : Connection → State host → Connection × State host
  cleanup c s =
      let s₁ =
        if c.is_connected && c.has_handler
        then call host (browser_disconnected c.browser_info) s
        else s in
      let c₁ = record c {
        is_connected = false;
        browser_info = no_browser;
        buffer = [];
        cursor = none;
        read_size = 0;
        final_size = 0;
      } in
      (c₁, if is_valid c then at (cancel_io c.handle s₁.world) s₁ else s₁)

  unfoldable pub connect_pipe : Connection → World → ResultCode × World
  connect_pipe c w =
      let (connected, w₁) = connect_named_pipe c.handle w in
      let err = get_last_error w₁ in
      let (signalled, w₂) = set_event c.event w₁ in
      if connected
      then (error_to_result_code err, w₁)
      else if err == error_io_pending
      then (ok, w₁)
      else if err == error_pipe_connected
      then (error_to_result_code (if signalled then error_success else get_last_error w₂), w₂)
      else (error_to_result_code err, w₁)

  -- The first step of ResetInternal: disconnect the pipe, or create it.
  unfoldable pub obtain_pipe :
      Text → Bool → Bool → Connection → World → ResultCode × Connection × World
  obtain_pipe pipename user_specific is_first_pipe c w =
      let (disconnected, w₁) = disconnect_named_pipe c.handle w in
      let (err, handle, w₂) = create_pipe os pipename user_specific is_first_pipe c.handle w in
      if is_valid c
      then (if disconnected then ok else error_to_result_code (get_last_error w₁), c, w₁)
      else (error_to_result_code err, record c { handle = handle }, w₂)

  -- The two steps that follow while no error occurred.
  unfoldable pub reset_and_connect : ResultCode → Connection → World → ResultCode × World
  reset_and_connect rc c w =
      let (reset, w₁) = reset_event c.event w in
      let rc₁ = if reset then ok else error_to_result_code (get_last_error w₁) in
      let connecting = connect_pipe c w₁ in
      if code_eq rc ok then if code_eq rc₁ ok then connecting else (rc₁, w₁) else (rc, w)

  unfoldable pub reset_internal :
      Text → Bool → Bool → Connection → State host → ResultCode × Connection × State host
  reset_internal pipename user_specific is_first_pipe c s =
      let (rc, c₁, w₁) = obtain_pipe pipename user_specific is_first_pipe c s.world in
      let (rc₁, w₂) = reset_and_connect rc c₁ w₁ in
      let (c₂, s₂) = cleanup c₁ (at w₂ s) in
      if code_eq rc₁ ok
      then (ok, c₁, at w₂ s)
      else (rc₁, record c₂ { handle = invalid_handle_value }, s₂)

  -- The constructor.
  unfoldable pub new_connection :
      Text → Bool → Bool → Bool → State host → ResultCode × Connection × State host
  new_connection pipename user_specific has_handler is_first_pipe s =
      let (event, w₁) = create_event s.world in
      let c = unopened has_handler event in
      if event == null_handle
      then (cannot_create_channel_io_event, c, at w₁ s)
      else reset_internal pipename user_specific is_first_pipe c (at w₁ s)

  -- The destructor.
  unfoldable pub delete_connection : Connection → State host → State host
  delete_connection c s =
      let s₁ = (cleanup c s).1 in
      let s₂ = if is_valid c then at (close_handle c.handle s₁.world) s₁ else s₁ in
      if c.event == null_handle then s₂ else at (close_handle c.event s₂.world) s₂

  -- `Reset`.
  pub reset : Text → Bool → Connection → State host → ResultCode × Connection × State host
  reset pipename user_specific c s =
      let (rc, c₁, s₁) = reset_internal pipename user_specific false c s in
      (rc, c₁, notify_if_error c₁ (codes "ConnectionReset") rc error_success s₁)
