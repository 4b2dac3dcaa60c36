-- ===== src/Conversation/Answers.antt =====
-- From the response that the demo agent gives (AnalyzeContent of demo/handler.h) through Send of
-- browser/src/client_win.cc to the acknowledgement of the demo client (HandleRequest of
-- demo/client.cc).
use content_analysis_sdk.Prelude.{
  ℕ, ◌<◌, ◌^◌, true, false, some, List, [], ◌∷◌, ◌++◌, ◌≡◌, ap, ◌∙◌, arith, Text, codes, is_empty,
  length, ◌==◌,
}
use content_analysis_sdk.Proto.{
  ContentAnalysisRequest, ContentAnalysisResponse, Protobuf, empty_chrome_to_agent,
}
use content_analysis_sdk.Windows.{Windows, null_handle}
use content_analysis_sdk.Client.{Client, write_message_to_pipe, acknowledge, send, returned}
use content_analysis_sdk.Client.Receiving.{Delivers}
use content_analysis_sdk.Client.Sending.{send-Delivers}
use content_analysis_sdk.Connection.Reassembly.Message.{joined}
use content_analysis_sdk.Event.Response.{token_of}
use content_analysis_sdk.Demo.Handler.{Verdict}
use content_analysis_sdk.Demo.Grouping.{build_acknowledgement}
use content_analysis_sdk.Demo.CommandLine.{ClientOptions}
use content_analysis_sdk.Demo.Output.{dump_response}
use content_analysis_sdk.Demo.Session.{
  Run, continues, printed, acknowledge_reported, finish_request, handle_request,
}
use content_analysis_sdk.Demo.Handler.{response_for}
use content_analysis_sdk.Conversation.Verdicts.{outcome_of, handle_response_judged}

module _ (os : Windows) (pb : Protobuf) (c : Client) (rounds : ℕ) (o : ClientOptions)
    (time : os.World → ℕ) (ctime : ℕ → Text) where
  -- The state after the answer with that verdict was printed and acknowledged.
  abbrev pub answered : Verdict → ContentAnalysisRequest → Run os.World → Run os.World
  answered v request s =
      let now = ctime (time s.world) in
      acknowledge_reported os pb c rounds o time ctime (codes "[Demo] Error sending ack ")
        (token_of request) (build_acknowledgement (token_of request) (outcome_of v))
        (printed (dump_response now (response_for v request) ∷ []) s)

  finish_request_judged :
      (v : Verdict) (request : ContentAnalysisRequest) (s : Run os.World)
      → o.group ≡ false
      → finish_request os pb c rounds o time ctime request (some (response_for v request)) s
        ≡ answered v request s
  unfolding finish_request
  finish_request_judged v request s alone =
      ground (arith, alone, handle_response_judged v request s.globals)

  answered_world :
      (v : Verdict) (request : ContentAnalysisRequest) (s : Run os.World)
      → let ack = build_acknowledgement (token_of request) (outcome_of v) in
        ((answered v request s).globals ≡ s.globals)
        × ((answered v request s).world ≡ (acknowledge os pb c ack s.world).1)
  unfolding acknowledge_reported
  answered_world v request s = ground arith

  handle_request_answered :
      (request : ContentAnalysisRequest) (response : ContentAnalysisResponse) (s : Run os.World)
      (w : os.World)
      → send os pb rounds c request s.world ≡ returned (some response, w)
      → handle_request os pb c rounds o time ctime request s
        ≡ continues (
            finish_request os pb c rounds o time ctime request
              (some response)
              (record s { world = w }))
  unfolding handle_request
  handle_request_answered request response s w e = ground (arith, e)

  -- The client of the demo without --group acknowledges a request that the agent of the demo answers
  -- with a verdict exactly once, right after Send: with the token of the request, and with the final
  -- action BLOCK if the verdict is to block, ALLOW if it is to allow or if no verdict was reached. It
  -- does so where an event for Send can be created, the request is written, and the pipe delivers the
  -- bytes of the answer, fewer than 2 GB, in reads of which each but the last fills the buffer.
  pub handle_request_judged :
      (v : Verdict) (request : ContentAnalysisRequest) (chunks : List Text) (last : Text)
      (s : Run os.World) (w' : os.World)
      → let (event, w₁) = os.create_event s.world in
        let message = record empty_chrome_to_agent { request = some request } in
        let (success, w₂) =
          write_message_to_pipe os c.pipe (pb.serialize_chrome_to_agent message) w₁ in
        let bytes = joined [] chunks ++ last in
        let ack = build_acknowledgement (token_of request) (outcome_of v) in
        o.group ≡ false
        → (event == null_handle) ≡ false
        → success ≡ true
        → Delivers os c.pipe chunks last w₂ w'
        → length chunks < rounds
        → is_empty bytes ≡ false
        → length bytes < 2 ^ 31
        → pb.parse_agent_to_chrome bytes
          ≡ some (record { response = some (response_for v request) })
        → (t : Run os.World) × (handle_request os pb c rounds o time ctime request s ≡ continues t)
          × (t.globals ≡ s.globals)
          × (t.world ≡ (acknowledge os pb c ack (os.close_handle event w')).1)
  handle_request_judged v request chunks last s w' alone made sent d fuel full small parsed =
      let response = response_for v request in
      let w = os.close_handle (os.create_event s.world).0 w' in
      let sent' =
        send-Delivers os pb rounds c request response chunks last s.world w' made sent d fuel full
          small parsed in
      let s₁ = record s { world = w } in
      let (same, acked) = answered_world v request s₁ in
      (
        answered v request s₁,
        handle_request_answered request response s w sent'
            ∙ ap continues (finish_request_judged v request s₁ alone),
        same,
        acked,
      )
