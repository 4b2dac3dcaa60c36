-- ===== src/Conversation/Requests.antt =====
-- From the message of a browser (Send, Acknowledge and CancelRequests of browser/src/client_win.cc)
-- to the call of the handler (HandleEvent of agent/src/agent_win.cc).
use content_analysis_sdk.Prelude.{
  ◌^◌, ◌<◌, Option, none, some, List, [], ◌++◌, ◌≡◌, refl, false, arith, Text, is_empty, length,
  if◌then◌else◌,
}
use content_analysis_sdk.ResultCode.{ok}
use content_analysis_sdk.Proto.{ChromeToAgent, ContentAnalysisRequest}
use content_analysis_sdk.Event.{BrowserInfo, create, init}
use content_analysis_sdk.Event.Response.{token_of, init-create}
use content_analysis_sdk.Host.{
  Host, State, Callback, call, analysis_requested, response_acknowledged, cancel_requests,
}
use content_analysis_sdk.Connection.{Connection, receive, at}
use content_analysis_sdk.Connection.Reading.{
  analyze, dispatch, handle_parsed, handle_message, continue, handle_event,
}
use content_analysis_sdk.Connection.Reassembly.{Holds}
use content_analysis_sdk.Connection.Reassembly.Message.{
  joined, feed, AllFill, Ends, handle_event_reassembles,
}
use content_analysis_sdk.Prelude.{ℕ}

-- The call of the handler that a message stands for, if it is one that the agent accepts: a request
-- that has a token, an acknowledgement or a cancellation.
abbrev pub meaning : ℕ → BrowserInfo → ChromeToAgent → Option Callback
meaning pipe info m = elim m.request [
  | some request ↦
      if is_empty (token_of request)
      then none
      else some (analysis_requested (init (create pipe info request)).1)
  | none ↦ elim m.ack [
    | some ack ↦ some (response_acknowledged ack)
    | none ↦ elim m.cancel [ some cancel ↦ some (cancel_requests cancel) | none ↦ none ]
  ]
]

module _ (host : Host) where
  open host use {os, pb}

  analyzed :
      (c : Connection) (request : ContentAnalysisRequest) (s : State host)
      → is_empty (token_of request) ≡ false
      → analyze host c request s
        ≡ (ok, call host (analysis_requested (init (create c.handle c.browser_info request)).1) s)
  unfolding analyze
  analyzed c request s named = ground (arith, init-create c.handle c.browser_info request)

  dispatched :
      (c : Connection) (m : ChromeToAgent) (callback : Callback) (s : State host)
      (request : Option ContentAnalysisRequest)
      → m.request ≡ request
      → meaning c.handle c.browser_info m ≡ some callback
      → dispatch host c m s ≡ (ok, call host callback s)
  unfolding dispatch
  dispatched c m callback s none e means = ground arith
  dispatched c m callback s (some request) e means = ground (arith, analyzed c request s)

  handled :
      (c : Connection) (m : ChromeToAgent) (callback : Callback) (s : State host)
      → pb.parse_chrome_to_agent (pb.serialize_chrome_to_agent m) ≡ some m
      → meaning c.handle c.browser_info m ≡ some callback
      → handle_message host c (pb.serialize_chrome_to_agent m) s ≡ (ok, call host callback s)
  unfolding handle_message handle_parsed
  handled c m callback s parsed means =
      ground (arith, parsed, dispatched c m callback s m.request refl means)

  -- What a browser serialises reaches the handler, if its bytes are parsed as the message: a
  -- request with a token, an acknowledgement or a cancellation whose bytes, fewer than 2 GB,
  -- arrive in any number of reads, each but the last of which fills the buffer, at a connection
  -- that holds nothing of a message yet. The reads before the last call the handler not at all; at
  -- the last one HandleEvent makes exactly the call that stands for the message, for a request
  -- with the event that Init makes of it, and goes on to the next read.
  pub handle_event_understands :
      (m : ChromeToAgent) (callback : Callback) (chunks : List Text) (last : Text) (c : Connection)
      (s : State host)
      → let (c', s') = feed host chunks c s in
        let w₁ = (os.read_result c'.event s'.world).2 in
        let bytes = pb.serialize_chrome_to_agent m in
        let d = record (receive last c') { final_size = length bytes } in
        pb.parse_chrome_to_agent bytes ≡ some m
        → joined [] chunks ++ last ≡ bytes
        → Holds [] c
        → AllFill host chunks c s
        → Ends host last c' s'
        → length bytes < 2 ^ 31
        → meaning d.handle d.browser_info m ≡ some callback
        → (s'.calls ≡ s.calls)
          × (handle_event host c'.event c' s'
              ≡ continue host (ok, d, call host callback (at host w₁ s')))
  handle_event_understands m callback chunks last c s parsed whole h f ends small means =
      let fed = feed host chunks c s in
      let w₁ = (os.read_result fed.0.event fed.1.world).2 in
      let d = record (receive last fed.0) {
        final_size = length (pb.serialize_chrome_to_agent m);
      } in
      let arrived = handle_event_reassembles host chunks last c s h f ends (rw whole small) in
      ground (arith, arrived, whole, handled d m callback (at host w₁ fed.1) parsed means)
