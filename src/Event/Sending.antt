-- ===== src/Event/Sending.antt =====
-- Send, Shutdown and Close of an event (event_win.cc): the response goes out once.
use content_analysis_sdk.Prelude.{true, ◌≡◌, arith, if◌then◌else◌, ◌==◌}
use content_analysis_sdk.ResultCode.{ok, response_already_sent}
use content_analysis_sdk.Proto.{Protobuf}
use content_analysis_sdk.Windows.{Windows, invalid_handle_value}
use content_analysis_sdk.Event.{Event, write_message_to_pipe, send, close}

module _ (os : Windows) (pb : Protobuf) where
  open os use {World, flush_file_buffers}
  open pb use {serialize_agent_to_chrome}

  -- After a Send, whatever it returned, every further Send fails with ERR_RESPONSE_ALREADY_SENT,
  -- makes no call of the operating system and leaves the event as it is.
  pub send-send :
      (e : Event) (w later : World)
      → let e' = (send os pb e w).1 in send os pb e' later ≡ (response_already_sent, e', later)
  unfolding send
  send-send e w later = ground arith

  -- Close of an event with a valid pipe returns OK. If no response was sent it sends the response,
  -- and in either case it flushes the pipe; the closed event has no pipe and counts as sent. On an
  -- event without a valid pipe it does nothing.
  pub close_lem :
      (e : Event) (w : World)
      → close os pb e w ≡ (
          if e.pipe == invalid_handle_value then (ok, e, w) else (
            ok,
            record e { pipe = invalid_handle_value; response_sent = true },
            flush_file_buffers e.pipe (
                if e.response_sent
                then w
                else (write_message_to_pipe os e.pipe
                    (serialize_agent_to_chrome e.agent_to_chrome)
                    w).1),
          ))
  unfolding close send
  close_lem e w = ground arith

  -- Close leaves an event on which Close returns OK, makes no call and changes nothing.
  pub close-close :
      (e : Event) (w later : World)
      → let e' = (close os pb e w).1 in close os pb e' later ≡ (ok, e', later)
  unfolding close
  close-close e w later = ground arith
