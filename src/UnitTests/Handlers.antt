-- ===== src/UnitTests/Handlers.antt =====
-- The test handlers of agent/src/agent_win_unittest.cc.
use content_analysis_sdk.Prelude.{◌-◌, ℕ, suc, Bool, true, false, not, if◌then◌else◌}
use content_analysis_sdk.ResultCode.{ok, code_eq}
use content_analysis_sdk.Proto.{Protobuf}
use content_analysis_sdk.Windows.{Windows}
use content_analysis_sdk.Event.{BrowserInfo, Event, send, shutdown, close}
use content_analysis_sdk.Host.{
  Callback, browser_connected, browser_disconnected, analysis_requested, response_acknowledged,
  cancel_requests, internal_error,
}

-- TestHandler and the handlers that are derived from it.
pub data Kind : Type 0 where
  test_handler close_event_test_handler double_send_test_handler : Kind
  signal_client_connected_test_handler signal_client_requested_test_handler : Kind

-- `latch` is the counter of the latch that a handler that signals has, 1 at first.
pub record TestHandler : Type 0 where
  pub connect_count : ℕ
  pub disconnect_count : ℕ
  pub request_count : ℕ
  pub ack_count : ℕ
  pub cancel_count : ℕ
  pub last_info : BrowserInfo
  pub latch : ℕ

module _ (os : Windows) (pb : Protobuf) where
  open os use {World, flush_file_buffers}
  open pb use {serialize_agent_to_chrome}

  send_once : Event → World → Bool × Event × World
  send_once e w = let (ret, e₁, w₁) = send os pb e w in (code_eq ret ok, e₁, w₁)

  -- What a handler does with its event: whether its assertions held, of which the first that does
  -- not ends the method of TestHandler.
  respond : Kind → Event → World → Bool × Event × World
  unfolding send_once
  respond test_handler e w = send_once e w
  respond close_event_test_handler e w =
      let (ret, e₁, w₁) = close os pb e w in
      let (ret', e₂, w₂) = send os pb e₁ w₁ in
      if code_eq ret ok then (not (code_eq ret' ok), e₂, w₂) else (false, e₁, w₁)
  respond double_send_test_handler e w =
      let (ret, e₁, w₁) = send os pb e w in
      let (ret', e₂, w₂) = send os pb e₁ w₁ in
      if code_eq ret ok then (not (code_eq ret' ok), e₂, w₂) else (false, e₁, w₁)
  respond signal_client_connected_test_handler e w = send_once e w
  respond signal_client_requested_test_handler e w = send_once e w

  -- `count_down` of the latch, at the end of OnAnalysisRequested and of OnBrowserConnected.
  after_request : Kind → ℕ → ℕ
  after_request test_handler latch = latch
  after_request close_event_test_handler latch = latch
  after_request double_send_test_handler latch = latch
  after_request signal_client_connected_test_handler latch = latch
  after_request signal_client_requested_test_handler latch = latch - 1

  after_connection : Kind → ℕ → ℕ
  after_connection test_handler latch = latch
  after_connection close_event_test_handler latch = latch
  after_connection double_send_test_handler latch = latch
  after_connection signal_client_connected_test_handler latch = latch - 1
  after_connection signal_client_requested_test_handler latch = latch

  -- OnAnalysisRequested, in which the event is destroyed.
  pub on_analysis_requested : Kind → Event → TestHandler → World → Bool × TestHandler × World
  unfolding respond after_request
  on_analysis_requested kind e h w =
      let (passed, e₁, w₁) = respond kind e w in
      (
        passed,
        record h { request_count = suc h.request_count; latch = after_request kind h.latch },
        (shutdown os pb e₁ w₁).1,
      )

  -- The methods of a test handler; AgentEventHandler does nothing on an internal error.
  pub handle_callback : Kind → Callback → TestHandler → World → Bool × TestHandler × World
  unfolding after_connection
  handle_callback kind (browser_connected info) h w = (
    true,
    record h {
      last_info = info;
      connect_count = suc h.connect_count;
      latch = after_connection kind h.latch;
    },
    w,
  )
  handle_callback kind (browser_disconnected info) h w =
      (true, record h { last_info = info; disconnect_count = suc h.disconnect_count }, w)
  handle_callback kind (analysis_requested e) h w = on_analysis_requested kind e h w
  handle_callback kind (response_acknowledged ack) h w =
      (true, record h { ack_count = suc h.ack_count }, w)
  handle_callback kind (cancel_requests cancel) h w =
      (true, record h { cancel_count = suc h.cancel_count }, w)
  handle_callback kind (internal_error context error) h w = (true, h, w)
