-- ===== src/Connection/Reading.antt =====
-- The part of AgentWin::Connection (agent/src/agent_win.cc) that reads messages and hands them to
-- the handler: HandleEvent and what it calls.
use content_analysis_sdk.Prelude.{
  ℕ, ◌+◌, ◌-◌, ◌%◌, ◌^◌, ltb, Option, Bool, true, ◌||◌, none, some, Text, codes, length, take, ◌==◌,
  if◌then◌else◌,
}
use content_analysis_sdk.ResultCode.{
  ResultCode, ok, io_pending, more_data, broken_pipe, invalid_request_from_browser,
  cannot_get_browser_pid, cannot_get_browser_binary_path, code_eq, error_success, error_more_data,
  error_to_result_code,
}
use content_analysis_sdk.Proto.{ChromeToAgent, ContentAnalysisRequest}
use content_analysis_sdk.Windows.{dword}
use content_analysis_sdk.Event.{create, init, shutdown}
use content_analysis_sdk.PipeName.{buffer_size, get_process_path}
use content_analysis_sdk.Host.{
  Host, State, call, browser_connected, analysis_requested, response_acknowledged, cancel_requests,
}
use content_analysis_sdk.Connection.{Connection, resize, receive, at, notify_if_error, cleanup}

module _ (host : Host) where
  open host use {os, pb}
  open os use {get_last_error, client_process_id, read_file, read_result}
  open pb use {parse_chrome_to_agent, parse_negative}

  -- `cursor_` is null only where no buffer was set up.
  unfoldable pub queue_read_file :
      Bool → Connection → State host → ResultCode × Connection × State host
  queue_read_file reset_cursor c s =
      let c₁ =
        if reset_cursor
        then record c { cursor = some 0; read_size = length c.buffer % dword; final_size = 0 }
        else c in
      let (success, bytes, w₁) = read_file c₁.handle c₁.read_size s.world in
      let err = get_last_error w₁ in
      let rc = error_to_result_code err in
      let s₁ = at host w₁ s in
      let quiet = code_eq rc io_pending || (code_eq rc broken_pipe || code_eq rc more_data) in
      if success
      then (ok, c₁, s₁)
      else (rc, c₁, if quiet then s₁ else notify_if_error host c₁ (codes "QueueReadFile") rc err s₁)

  -- The request branch of CallHandler. An event that Init refuses is destroyed at the end of it.
  unfoldable pub analyze :
      Connection → ContentAnalysisRequest → State host → ResultCode × State host
  analyze c request s =
      let (rc, event) = init (create c.handle c.browser_info request) in
      let s₁ = notify_if_error host c (codes "RequestValidation") rc error_success s in
      if code_eq rc ok
      then (ok, call host (analysis_requested event) s)
      else (rc, at host (shutdown os pb event s₁.world).1 s₁)

  -- The test for a request comes first, then the one for an ack, then the one for a cancel.
  unfoldable pub dispatch : Connection → ChromeToAgent → State host → ResultCode × State host
  dispatch c message s = elim message.request [
    | some request ↦ analyze c request s
    | none ↦ elim message.ack [
      | some ack ↦ (ok, call host (response_acknowledged ack) s)
      | none ↦ elim message.cancel [
        | some cancel ↦ (ok, call host (cancel_requests cancel) s)
        | none ↦ (
          invalid_request_from_browser,
          notify_if_error host c (codes "NoRequestOrAck") invalid_request_from_browser error_success
              s,
        )
      ]
    ]
  ]

  -- CallHandler behind ParseFromArray.
  unfoldable pub handle_parsed :
      Connection → Option ChromeToAgent → State host → ResultCode × State host
  handle_parsed c parsed s = elim parsed [
    | some message ↦ dispatch c message s
    | none ↦ (
      invalid_request_from_browser,
      notify_if_error host c (codes "ParseChromeToAgent") invalid_request_from_browser error_success
          s,
    )
  ]

  -- CallHandler on the bytes of one message.
  unfoldable pub handle_message : Connection → Text → State host → ResultCode × State host
  unfolding handle_parsed
  handle_message c bytes s = handle_parsed c (parse_chrome_to_agent bytes) s

  -- CallHandler. ParseFromArray takes an `int`, which `final_size_` is converted to.
  unfoldable pub call_handler : Connection → State host → ResultCode × State host
  call_handler c s =
      if ltb c.final_size (2 ^ 31)
      then handle_message c (take c.final_size c.buffer) s
      else handle_parsed c (parse_negative c.final_size c.buffer) s

  -- `c.buffer` already holds the bytes that the read put at the cursor; `count` is their number.
  unfoldable pub on_read_file :
      Bool → ℕ → Connection → State host → ResultCode × Connection × State host
  on_read_file done_reading count c s =
      let c₁ = record c { final_size = (c.final_size + count) % dword } in
      let (rc, s₁) = call_handler c₁ s in
      let err = get_last_error s.world in
      let grown = resize (length c.buffer + buffer_size) c.buffer in
      let c₂ = record c₁ {
        read_size = buffer_size;
        buffer = grown;
        cursor = some (length grown - buffer_size);
      } in
      let rc₂ = error_to_result_code err in
      if done_reading
      then (rc, c₁, s₁)
      else if err == error_more_data
      then (rc₂, c₂, s)
      else (rc₂, c₁, notify_if_error host c₁ (codes "OnReadFile") rc₂ error_success s)

  unfoldable pub build_browser_info : Connection → State host → ResultCode × Connection × State host
  build_browser_info c s =
      let (pid, w₁) = client_process_id c.handle s.world in
      let no_pid = cannot_get_browser_pid in
      let no_path = cannot_get_browser_binary_path in
      elim pid [
        | none ↦ (
          no_pid,
          c,
          notify_if_error host c (codes "BuildBrowserInfo") no_pid error_success (at host w₁ s),
        )
        | some p ↦
            let (path, w₂) = get_process_path os p w₁ in
            let c₁ = record c {
              browser_info = record { pid = p; binary_path = c.browser_info.binary_path };
            } in
            elim path [
              | none ↦ (
                no_path,
                c₁,
                notify_if_error host c₁ (codes "BuildBrowserInfo") no_path error_success
                    (at host w₂ s),
              )
              | some binary ↦ (
                ok,
                record c { browser_info = record { pid = p; binary_path = binary } },
                at host w₂ s,
              )
            ]
      ]

  -- HandleEvent on a listening connection, up to the next read: `success` is the result of the
  -- wait for a browser.
  unfoldable pub accept : Bool → Connection → State host → ResultCode × Connection × State host
  accept success c s =
      let c₁ = record c { is_connected = true; buffer = resize buffer_size c.buffer } in
      let (rc, c₂, s₁) = build_browser_info c₁ s in
      let err = error_to_result_code (get_last_error s.world) in
      if success
      then (rc, c₂, if code_eq rc ok then call host (browser_connected c₂.browser_info) s₁ else s₁)
      else (err, c, notify_if_error host c (codes "GetOverlappedResult") err error_success s)

  -- The end of HandleEvent: queue the next read, or clean up.
  unfoldable pub continue :
      ResultCode × Connection × State host → ResultCode × Connection × State host
  continue (rc, c, s) =
      let reading = code_eq rc ok || code_eq rc more_data in
      let queued = queue_read_file (code_eq rc ok) c s in
      let (rc₁, c₁, s₁) = if reading then queued else (rc, c, s) in
      let fine = code_eq rc₁ ok || (code_eq rc₁ io_pending || code_eq rc₁ more_data) in
      let (c₂, s₂) = cleanup host c₁ s₁ in if fine then (ok, c₁, s₁) else (rc₁, c₂, s₂)

  -- `HandleEvent(handle)`.
  unfoldable pub handle_event : ℕ → Connection → State host → ResultCode × Connection × State host
  handle_event handle c s =
      let (success, bytes, w₁) = read_result handle s.world in
      if c.is_connected
      then continue (on_read_file success (length bytes) (receive bytes c) (at host w₁ s))
      else continue (accept success c (at host w₁ s))
