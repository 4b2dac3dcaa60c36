-- ===== src/Conversation/Service.antt =====
-- The agent of demo/agent.cc without --queued: the agent of the library with Handler of
-- demo/handler.h, from the bytes of a request to the bytes of its response.
use content_analysis_sdk.Prelude.{
  ◌^◌, ◌<◌, ℕ, false, some, List, ◌∷◌, ◌++◌, ◌≡◌, refl, arith, Text, is_empty, length, ◌==◌, Option,
  [], ◌∙◌,
}
use content_analysis_sdk.ResultCode.{ok}
use content_analysis_sdk.Proto.{ContentAnalysisRequest, empty_chrome_to_agent}
use content_analysis_sdk.Windows.{invalid_handle_value}
use content_analysis_sdk.Event.{create, init, write_message_to_pipe}
use content_analysis_sdk.Event.Response.{token_of}
use content_analysis_sdk.Host.{Host, State, Callback, analysis_requested}
use content_analysis_sdk.Connection.{Connection, receive}
use content_analysis_sdk.Connection.Reading.{continue, handle_event}
use content_analysis_sdk.Connection.Reassembly.{Holds}
use content_analysis_sdk.Connection.Reassembly.Message.{joined, feed, AllFill, Ends}
use content_analysis_sdk.Demo.Handler.{Verdict, judge, answer_sends, init_request}
use content_analysis_sdk.Demo.Dump.{dump_event}
use content_analysis_sdk.Demo.Analysis.{Machine, Settings, analyze_event_dumped}
use content_analysis_sdk.Demo.Callbacks.{handle_callback, handle_callback_analyzed}
use content_analysis_sdk.Conversation.Requests.{meaning, handle_event_understands}
use content_analysis_sdk.Demo.Handler.{response_for}

module _ (host : Host) (machine : Machine) (settings : Settings) (time : host.os.World → ℕ)
    (received : host.os.World → Text) where
  open host use {os, pb}

  -- The handler of the agent is that of the demo: where one of its methods runs to its end, the state
  -- is as that leaves it.
  abbrev pub HasDemoHandler : Type 0
  HasDemoHandler =
      (callback : Callback) (w w' : os.World) (text : Text)
      → handle_callback machine os pb settings (time w) (received w) callback w ≡ some (text, w')
      → host.handler callback w ≡ w'

  requested_world :
      (demo : HasDemoHandler) (c : Connection) (request : ContentAnalysisRequest) (w w₂ : os.World)
      (text : Text) (saved : Option Text) (v : Verdict)
      → let e = (init (create c.handle c.browser_info request)).1 in
        is_empty (token_of request) ≡ false
        → (c.handle == invalid_handle_value) ≡ false
        → dump_event os machine.ctime (time w) (received w) settings.save_path e w
          ≡ some (text, saved, w₂)
        → judge machine.files request ≡ some v
        → host.handler (analysis_requested e) w
          ≡ os.flush_file_buffers c.handle
              (write_message_to_pipe os c.handle
                (pb.serialize_agent_to_chrome (record { response = some (response_for v request) }))
                w₂).1
  requested_world demo c request w w₂ text saved v named valid dumped judged =
      let e = (init (create c.handle c.browser_info request)).1 in
      let (r, runs, same, waits, left) =
        analyze_event_dumped machine os pb settings (time w) (received w) e w w₂ text saved v dumped
          (rw (init_request c.handle c.browser_info request) judged) in
      let (text', handled) =
        handle_callback_analyzed machine os pb settings (time w) (received w) e w r runs in
      demo (analysis_requested e) w r.world text' handled
      ∙ (left ∙ answer_sends os pb v c.handle c.browser_info request w₂ named valid)

  -- The agent of the demo, without --queued, answers a request that has a token and whose bytes,
  -- fewer than 2 GB, arrive in any number of reads at a connection that is ready for a message: at
  -- the last read, where DumpEvent runs to its end and there is a verdict, HandleEvent writes to
  -- the pipe of the connection the message with the verdict on that request, once, flushes the
  -- pipe, and goes on to the next read; the handler was called once, with the event of the
  -- request.
  pub handle_event_answers :
      (demo : HasDemoHandler) (request : ContentAnalysisRequest) (chunks : List Text) (last : Text)
      (c : Connection) (s : State host) (w₂ : os.World) (text : Text) (saved : Option Text)
      (v : Verdict)
      → let (c', s') = feed host chunks c s in
        let w₁ = (os.read_result c'.event s'.world).2 in
        let message = record empty_chrome_to_agent { request = some request } in
        let bytes = pb.serialize_chrome_to_agent message in
        let d = record (receive last c') { final_size = length bytes } in
        let e = (init (create d.handle d.browser_info request)).1 in
        let response = response_for v request in
        let answer = pb.serialize_agent_to_chrome (record { response = some response }) in
        pb.parse_chrome_to_agent bytes ≡ some message
        → joined [] chunks ++ last ≡ bytes
        → Holds [] c
        → AllFill host chunks c s
        → Ends host last c' s'
        → length bytes < 2 ^ 31
        → is_empty (token_of request) ≡ false
        → (d.handle == invalid_handle_value) ≡ false
        → dump_event os machine.ctime (time w₁) (received w₁) settings.save_path e w₁
          ≡ some (text, saved, w₂)
        → judge machine.files request ≡ some v
        → handle_event host c'.event c' s'
          ≡ continue host (
            ok,
            d,
            record {
              world =
                  os.flush_file_buffers d.handle (write_message_to_pipe os d.handle answer w₂).1;
              calls = analysis_requested e ∷ s.calls;
            },
          )
  handle_event_answers demo request chunks last c s w₂ text saved v parsed whole h f ends small
        named valid dumped judged =
      let fed = feed host chunks c s in
      let w₁ = (os.read_result fed.0.event fed.1.world).2 in
      let message = record empty_chrome_to_agent { request = some request } in
      let d = record (receive last fed.0) {
        final_size = length (pb.serialize_chrome_to_agent message);
      } in
      let e = (init (create d.handle d.browser_info request)).1 in
      let means : meaning d.handle d.browser_info message ≡ some (analysis_requested e) =
        ground (arith, named) in
      let (same, handled) =
        handle_event_understands host message (analysis_requested e) chunks last c s parsed whole h
          f ends small means in
      let world = requested_world demo d request w₁ w₂ text saved v named valid dumped judged in
      rw (handled, world, same) refl
