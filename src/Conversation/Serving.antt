-- ===== src/Conversation/Serving.antt =====
-- The agent of demo/agent.cc without --queued over a pipe in message mode, which CreatePipe of
-- common/utils_win.cc asks for: a request of any length, from its first read to its answer.
use content_analysis_sdk.Prelude.{
  ◌^◌, ℕ, ◌+◌, ◌*◌, ◌≤◌, ◌<◌, false, none, some, List, [], ◌∷◌, ◌++◌, ◌≡◌, refl, subst, ◌∙◌, arith,
  Text, is_empty, length, get_or_default, ◌==◌,
}
use content_analysis_sdk.ResultCode.{ok}
use content_analysis_sdk.Proto.{ContentAnalysisRequest, empty_chrome_to_agent}
use content_analysis_sdk.Windows.{invalid_handle_value}
use content_analysis_sdk.PipeName.{buffer_size}
use content_analysis_sdk.Event.{BrowserInfo, create, init, write_message_to_pipe}
use content_analysis_sdk.Event.Response.{token_of, init-create}
use content_analysis_sdk.Host.{Host, State, analysis_requested}
use content_analysis_sdk.Connection.{Connection, receive}
use content_analysis_sdk.Connection.Reading.{continue, handle_event}
use content_analysis_sdk.Connection.Reassembly.{Holds}
use content_analysis_sdk.Connection.Reassembly.Message.{joined, feed}
use content_analysis_sdk.Connection.Reassembly.Rounds.{ReadsMessages, arriving}
use content_analysis_sdk.Demo.Handler.{Verdict, judge}
use content_analysis_sdk.Demo.Dump.{saves, described, dump_event, dump_event_unsaved}
use content_analysis_sdk.Demo.Analysis.{Machine, Settings}
use content_analysis_sdk.Conversation.Service.{HasDemoHandler, handle_event_answers}
use content_analysis_sdk.Demo.Handler.{response_for}

received_handle : (bytes : Text) (c : Connection) → (receive bytes c).handle ≡ c.handle
received_handle bytes c = ground arith

init_request :
    (pipe : ℕ) (info : BrowserInfo) (request : ContentAnalysisRequest)
    → is_empty (token_of request) ≡ false
    → (init (create pipe info request)).1.request ≡ request
unfolding create
init_request pipe info request named = ground (arith, init-create pipe info request)

module _ (host : Host) (machine : Machine) (settings : Settings) (time : host.os.World → ℕ)
    (received : host.os.World → Text) where
  open host use {os, pb}

  unsaved_dump :
      (pipe : ℕ) (info : BrowserInfo) (request : ContentAnalysisRequest) (expires_at : Text)
      (w : os.World)
      → let e = (init (create pipe info request)).1 in
        is_empty (token_of request) ≡ false
        → machine.ctime (get_or_default request.expires_at 0) ≡ some expires_at
        → saves settings.save_path request.content_data ≡ false
        → dump_event os machine.ctime (time w) (received w) settings.save_path e w
          ≡ some (described (time w) (received w) expires_at e, none, w)
  unsaved_dump pipe info request expires_at w named written unsaved =
      let e = (init (create pipe info request)).1 in
      let same = init_request pipe info request named in
      dump_event_unsaved os machine.ctime (time w) (received w) settings.save_path expires_at e w
        (rw same written) (rw same unsaved)

  -- The agent of the demo, without --queued, answers a request that has a token, whose time of expiry
  -- `ctime` can write, that carries no printed document to save, whose file, if it names one, does not
  -- have a size that is negative as an `int`, and whose message has fewer than 2 GB. If the message
  -- waits at a pipe in message mode, whose read was started for a connection that is ready for a
  -- message, then after no more events than the rest of the message has parts of kBufferSize bytes,
  -- HandleEvent calls the handler once, with the event of the request, writes to the pipe of the
  -- connection the message with the verdict on that request, once, flushes the pipe, and goes on to the
  -- next read; the events before do not call the handler.
  pub handle_event_serves :
      (Left : Text → os.World → Type 0) (Waits : ℕ → Text → os.World → Type 0)
      (demo : HasDemoHandler host machine settings time received) (request : ContentAnalysisRequest)
      (c : Connection) (s : State host) (docs : ReadsMessages host Left Waits c.event c.handle)
      (rounds : ℕ) (expires_at : Text) (v : Verdict)
      → let message = record empty_chrome_to_agent { request = some request } in
        let bytes = pb.serialize_chrome_to_agent message in
        let response = response_for v request in
        let answer = pb.serialize_agent_to_chrome (record { response = some response }) in
        pb.parse_chrome_to_agent bytes ≡ some message
        → Holds [] c
        → Waits c.read_size bytes s.world
        → length bytes < 2 ^ 31
        → length bytes ≤ c.read_size + rounds * buffer_size
        → is_empty (token_of request) ≡ false
        → (c.handle == invalid_handle_value) ≡ false
        → machine.ctime (get_or_default request.expires_at 0) ≡ some expires_at
        → saves settings.save_path request.content_data ≡ false
        → judge machine.files request ≡ some v
        → (chunks : List Text) × (last : Text) × (length chunks ≤ rounds)
          × (joined [] chunks ++ last ≡ bytes)
          × (let (c', s') = feed host chunks c s in
              let w₁ = (os.read_result c'.event s'.world).2 in
              let d = record (receive last c') { final_size = length bytes } in
              let e = (init (create c.handle d.browser_info request)).1 in
              handle_event host c'.event c' s'
              ≡ continue host (
                ok,
                d,
                record {
                  world =
                      os.flush_file_buffers c.handle
                        (write_message_to_pipe os c.handle answer w₁).1;
                  calls = analysis_requested e ∷ s.calls;
                },
              ))
  handle_event_serves Left Waits demo request c s docs rounds expires_at v parsed h w small few
        named valid written unsaved judged =
      let bytes =
        pb.serialize_chrome_to_agent (record empty_chrome_to_agent { request = some request }) in
      let (chunks, last, fs, ends, fuel, whole, there) =
        arriving host Left Waits c.event c.handle docs rounds [] bytes c s h refl refl w
          (omega (arith, small)) few in
      let (c', s') = feed host chunks c s in
      let w₁ = (os.read_result c'.event s'.world).2 in
      let d = record (receive last c') { final_size = length bytes } in
      let same : d.handle ≡ c.handle = received_handle last c' ∙ there in
      let dumped =
        unsaved_dump d.handle d.browser_info request expires_at w₁ named written unsaved in
      let answers =
        handle_event_answers host machine settings time received demo request chunks last c s w₁ _
          none v parsed whole h fs ends small named (rw same valid) dumped judged in
      let answer =
        pb.serialize_agent_to_chrome (record { response = some (response_for v request) }) in
      (
        chunks,
        last,
        fuel,
        whole,
        subst
            (λ pipe.
              handle_event host c'.event c' s'
              ≡ continue host (
                ok,
                d,
                record {
                  world = os.flush_file_buffers pipe (write_message_to_pipe os pipe answer w₁).1;
                  calls =
                      analysis_requested (init (create pipe d.browser_info request)).1 ∷ s.calls;
                },
              ))
            same answers,
      )
