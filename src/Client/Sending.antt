-- ===== src/Client/Sending.antt =====
-- Send and Acknowledge of browser/src/client_win.cc, as a browser that has them called sees them.
use content_analysis_sdk.Prelude.{
  ℕ, ◌<◌, ◌^◌, true, false, some, List, [], ◌++◌, ◌≡◌, arith, Text, is_empty, length, ◌==◌,
}
use content_analysis_sdk.Proto.{
  ContentAnalysisRequest, ContentAnalysisResponse, ChromeToAgent, Protobuf, empty_chrome_to_agent,
}
use content_analysis_sdk.Windows.{Windows, null_handle}
use content_analysis_sdk.Client.{
  Client, returned, write_message_to_pipe, transmit, close_event, understand, send,
}
use content_analysis_sdk.Client.Receiving.{Delivers, read_next_message_from_pipe-Delivers}
use content_analysis_sdk.Connection.Reassembly.Message.{joined}

module _ (os : Windows) (pb : Protobuf) where
  transmitted :
      (c : Client) (message : ChromeToAgent) (w : os.World)
      → let (event, w₁) = os.create_event w in
        let (success, w₂) =
          write_message_to_pipe os c.pipe (pb.serialize_chrome_to_agent message) w₁ in
        (event == null_handle) ≡ false → transmit os pb c message w ≡ (success, event, w₂)
  unfolding transmit
  transmitted c message w made = ground arith

  understood :
      (event : ℕ) (buffer : Text) (w : os.World) (response : ContentAnalysisResponse)
      → (event == null_handle) ≡ false
      → is_empty buffer ≡ false
      → pb.parse_agent_to_chrome buffer ≡ some (record { response = some response })
      → understand os pb event (buffer, w) ≡ (some response, os.close_handle event w)
  unfolding understand close_event
  understood event buffer w response made full parsed = ground arith

  -- Send gives the response that the agent sent, and has closed its event: if an event can be
  -- created, the request is written, the pipe then delivers the bytes of the message with the
  -- response in any number of reads, each but the last of which fills kBufferSize bytes, and these
  -- bytes, at least one and fewer than 2 GB, are parsed as that message. One round more than there
  -- are full reads is enough.
  pub send-Delivers :
      (rounds : ℕ) (c : Client) (request : ContentAnalysisRequest)
      (response : ContentAnalysisResponse) (chunks : List Text) (last : Text) (w w' : os.World)
      → let (event, w₁) = os.create_event w in
        let message = record empty_chrome_to_agent { request = some request } in
        let (success, w₂) =
          write_message_to_pipe os c.pipe (pb.serialize_chrome_to_agent message) w₁ in
        let bytes = joined [] chunks ++ last in
        (event == null_handle) ≡ false
        → success ≡ true
        → Delivers os c.pipe chunks last w₂ w'
        → length chunks < rounds
        → is_empty bytes ≡ false
        → length bytes < 2 ^ 31
        → pb.parse_agent_to_chrome bytes ≡ some (record { response = some response })
        → send os pb rounds c request w ≡ returned (some response, os.close_handle event w')
  unfolding send
  send-Delivers rounds c request response chunks last w w' made sent d fuel full small parsed =
      let message = record empty_chrome_to_agent { request = some request } in
      let (event, w₁) = os.create_event w in
      let w₂ = (write_message_to_pipe os c.pipe (pb.serialize_chrome_to_agent message) w₁).1 in
      ground (
        arith,
        transmitted c message w made,
        read_next_message_from_pipe-Delivers os c.pipe chunks last rounds w₂ w' d fuel small,
        understood event (joined [] chunks ++ last) w' response made full parsed,
      )
