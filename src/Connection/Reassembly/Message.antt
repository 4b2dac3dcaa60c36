-- ===== src/Connection/Reassembly/Message.antt =====
-- A whole message, from the completion of its first read to the call of the handler.
use content_analysis_sdk.Prelude.{
  Option, ◌^◌, ◌≢◌, Option-cases, ◌≤◌, ◌<◌, true, false, some, none, List, [], ◌∷◌, ◌++◌, ◌≡◌, refl,
  ◌⊎◌, inl, inr, Text, length, arith, ◌∙◌,
}
use content_analysis_sdk.ResultCode.{
  ResultCode, ok, more_data, io_pending, missing_request_token, invalid_request_from_browser,
}
use content_analysis_sdk.ResultCode.Recoverable.{code_eq→eq}
use content_analysis_sdk.Proto.{ChromeToAgent, ContentAnalysisRequest}
use content_analysis_sdk.Windows.{dword}
use content_analysis_sdk.Event.Response.{init-create}
use content_analysis_sdk.PipeName.{buffer_size}
use content_analysis_sdk.Host.{Host, State}
use content_analysis_sdk.Connection.{Connection, resize, receive, at, cleanup}
use content_analysis_sdk.Connection.Buffer.{length-resize, length-overwrite}
use content_analysis_sdk.Connection.Reading.{
  queue_read_file, analyze, dispatch, handle_parsed, handle_message, accept, build_browser_info,
  continue, handle_event,
}
use content_analysis_sdk.Connection.Reassembly.{
  Holds, queue-Holds, arrived, last_call, Fills, fill_step,
}

-- The bytes of chunks that arrive one after the other.
abbrev pub joined : Text → List Text → Text
joined part [] = part
joined part (chunk ∷ chunks) = joined (part ++ chunk) chunks

module _ (host : Host) where
  open host use {os}

  -- One HandleEvent for each chunk.
  abbrev pub feed : List Text → Connection → State host → Connection × State host
  feed [] c s = (c, s)
  feed (chunk ∷ chunks) c s = let (rc, c', s') = handle_event host c.event c s in feed chunks c' s'

  abbrev pub AllFill : List Text → Connection → State host → Type 0
  AllFill [] c s = Unit {0}
  AllFill (chunk ∷ chunks) c s =
      let (rc, c', s') = handle_event host c.event c s in
      Fills host chunk c s × AllFill chunks c' s'

  feed-Holds :
      (chunks : List Text) (part : Text) (c : Connection) (s : State host)
      → Holds part c
      → AllFill chunks c s
      → let (c', s') = feed chunks c s in Holds (joined part chunks) c' × (s'.calls ≡ s.calls)
  feed-Holds [] part c s h f = (h, refl)
  feed-Holds (chunk ∷ chunks) part c s h f =
      let step = fill_step host part chunk c s h f.0 in
      let r = handle_event host c.event c s in
      let rest = feed-Holds chunks (part ++ chunk) r.1 r.2 step.1 f.1 in (rest.0, rest.1 ∙ step.2)

  -- HandleMessage refuses a message by one of two codes, and otherwise returns OK.
  analyze_code :
      (c : Connection) (request : ContentAnalysisRequest) (s : State host)
      → let rc = (analyze host c request s).0 in (rc ≡ ok) ⊎ (rc ≡ missing_request_token)
  unfolding analyze
  analyze_code c request s = ground (arith, init-create c.handle c.browser_info request)

  dispatch_code :
      (c : Connection) (m : ChromeToAgent) (s : State host)
      (request : Option ContentAnalysisRequest)
      → m.request ≡ request
      → let rc = (dispatch host c m s).0 in
        (rc ≡ ok) ⊎ ((rc ≡ missing_request_token) ⊎ (rc ≡ invalid_request_from_browser))
  unfolding dispatch
  dispatch_code c m s none e = ground arith
  dispatch_code c m s (some request) e = ground (arith, analyze_code c request s)

  pub handle_message_code :
      (c : Connection) (bytes : Text) (s : State host)
      → let rc = (handle_message host c bytes s).0 in
        (rc ≡ ok) ⊎ ((rc ≡ missing_request_token) ⊎ (rc ≡ invalid_request_from_browser))
  unfolding handle_message handle_parsed
  handle_message_code c bytes s = elim (Option-cases (host.pb.parse_chrome_to_agent bytes)) [
    | inl e ↦ rw (e, handle_message) (inr (inr refl))
    | inr (m, e) ↦ rw (e, handle_message) (dispatch_code c m s m.request refl)
  ]

  -- The next completion of a read brings `bytes`, the end of a message.
  abbrev pub Ends : Text → Connection → State host → Type 0
  Ends bytes c s =
      let (success, arrived, w₁) = os.read_result c.event s.world in
      (success ≡ true) × (arrived ≡ bytes) × (length bytes ≤ c.read_size)

  complete_step :
      (part bytes : Text) (c : Connection) (s : State host)
      → let w₁ = (os.read_result c.event s.world).2 in
        let message = part ++ bytes in
        let d = record (receive bytes c) { final_size = length message } in
        let (rc, s') = handle_message host d message (at host w₁ s) in
        Holds part c
        → Ends bytes c s
        → length message < 2 ^ 31
        → handle_event host c.event c s ≡ continue host (rc, d, s')
  unfolding handle_event
  complete_step part bytes c s h ends small =
      ground (arith, last_call host part bytes c (at host (os.read_result c.event s.world).2 s))

  -- A message begins in an empty buffer and arrives in any number of reads, each but the last of
  -- which fills the buffer and has more data behind it, with the buffer below 4 GB and the reads
  -- queued without an error. Then the reads before the last call the handler not at all, and at
  -- the last one HandleEvent parses and dispatches exactly the bytes of all reads together, in
  -- their order, before it goes on to the next read. The message has fewer than 2 GB.
  pub handle_event_reassembles :
      (chunks : List Text) (last : Text) (c : Connection) (s : State host)
      → let (c', s') = feed chunks c s in
        let w₁ = (os.read_result c'.event s'.world).2 in
        let message = joined [] chunks ++ last in
        let d = record (receive last c') { final_size = length message } in
        let (rc, s'') = handle_message host d message (at host w₁ s') in
        Holds [] c
        → AllFill chunks c s
        → Ends last c' s'
        → length message < 2 ^ 31
        → (s'.calls ≡ s.calls) × (handle_event host c'.event c' s' ≡ continue host (rc, d, s''))
  handle_event_reassembles chunks last c s h f ends small =
      let r = feed chunks c s in
      let fed = feed-Holds chunks [] c s h f in
      (fed.1, complete_step (joined [] chunks) last r.0 r.1 fed.0 ends small)

  continue_ready :
      (rc : ResultCode) (c : Connection) (s : State host)
      → rc ≢ more_data
      → rc ≢ io_pending
      → c.is_connected ≡ true
      → length c.buffer < dword
      → (continue host (rc, c, s)).0 ≡ ok
      → Holds [] (continue host (rc, c, s)).1
  unfolding continue
  continue_ready rc c s more pending connected small fine = ground (
    arith,
    code_eq→eq rc ok,
    code_eq→eq rc more_data,
    code_eq→eq rc io_pending,
    queue-Holds host c s connected small,
  )

  -- HandleEvent of the last read of a message whose earlier parts the buffer holds: if it
  -- returns OK, then the connection is ready for the next message, with an empty one held in its
  -- buffer.
  pub complete-Holds :
      (part bytes : Text) (c : Connection) (s : State host)
      → Holds part c
      → Ends bytes c s
      → length (part ++ bytes) < 2 ^ 31
      → (handle_event host c.event c s).0 ≡ ok
      → Holds [] (handle_event host c.event c s).1
  complete-Holds part bytes c s h ends small fine =
      let w₁ = (os.read_result c.event s.world).2 in
      let message = part ++ bytes in
      let d = record (receive bytes c) { final_size = length message } in
      let r = handle_message host d message (at host w₁ s) in
      ground (
        arith,
        complete_step part bytes c s h ends,
        handle_message_code d message (at host w₁ s),
        length-overwrite (length part) bytes c.buffer,
        continue_ready r.0 d r.1,
      )

  build_code :
      (c : Connection) (s : State host)
      → let (rc, c', s') = build_browser_info host c s in
        (rc ≢ more_data)
        × (rc ≢ io_pending)
        × (c'.is_connected ≡ c.is_connected)
        × (c'.buffer ≡ c.buffer)
  unfolding build_browser_info
  build_code c s = ground arith

  not_accepted :
      (rc : ResultCode) (c : Connection) (s : State host)
      → c.is_connected ≡ false
      → (continue host (rc, c, s)).1.is_connected ≡ false
  unfolding continue queue_read_file cleanup
  not_accepted rc c s listening = ground arith

  -- HandleEvent of a listening connection: if it returns OK and a browser is connected, then the
  -- connection is ready for a message, with an empty one held in its buffer.
  pub accept-Holds :
      (c : Connection) (s : State host)
      → c.is_connected ≡ false
      → (handle_event host c.event c s).0 ≡ ok
      → (handle_event host c.event c s).1.is_connected ≡ true
      → Holds [] (handle_event host c.event c s).1
  unfolding handle_event accept
  accept-Holds c s listening fine connected =
      let c₁ = record c { is_connected = true; buffer = resize buffer_size c.buffer } in
      let r = os.read_result c.event s.world in
      let b = build_browser_info host c₁ (at host r.2 s) in
      let a = accept host r.0 c (at host r.2 s) in
      ground (
        arith,
        build_code c₁ (at host r.2 s),
        length-resize buffer_size c.buffer,
        continue_ready a.0 a.1 a.2,
        not_accepted a.0 a.1 a.2,
      )
