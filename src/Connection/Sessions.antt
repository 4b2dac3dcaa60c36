-- ===== src/Connection/Sessions.antt =====
-- What the handler is told of browsers: OnBrowserConnected and OnBrowserDisconnected over the
-- operations of a connection (agent/src/agent_win.cc).
use content_analysis_sdk.Prelude.{
  Option, ℕ, suc, ◌+◌, ◌%◌, take, true, false, Bool, ◌&&◌, List, [], ◌∷◌, ◌≡◌, ◌≢◌, ◌⊎◌, Text,
  arith, if◌then◌else◌, length, some, none,
}
use content_analysis_sdk.ResultCode.{ResultCode, ok, more_data, io_pending, code_eq}
use content_analysis_sdk.Proto.{ChromeToAgent, ContentAnalysisRequest}
use content_analysis_sdk.Windows.{dword}
use content_analysis_sdk.PipeName.{buffer_size}
use content_analysis_sdk.Host.{Host, State, Callback, browser_connected, browser_disconnected}
use content_analysis_sdk.Connection.{Connection, resize, receive, at, notify_if_error, cleanup}
use content_analysis_sdk.Connection.Reading.{
  queue_read_file, analyze, dispatch, handle_parsed, handle_message, call_handler, on_read_file,
  accept, build_browser_info, continue, handle_event,
}

-- How often the handler was told that a browser connected, and that one disconnected.
abbrev pub connects : List Callback → ℕ
connects [] = 0
connects (browser_connected info ∷ calls) = suc (connects calls)
connects (call ∷ calls) = connects calls

abbrev pub disconnects : List Callback → ℕ
disconnects [] = 0
disconnects (browser_disconnected info ∷ calls) = suc (disconnects calls)
disconnects (call ∷ calls) = disconnects calls

module _ (host : Host) where
  open host use {os}

  abbrev pub Quiet : State host → State host → Type 0
  Quiet s s' = (connects s'.calls ≡ connects s.calls) × (disconnects s'.calls ≡ disconnects s.calls)

  pub notify-Quiet :
      (c : Connection) (context : Text) (rc : ResultCode) (err : ℕ) (s : State host)
      → Quiet s (notify_if_error host c context rc err s)
  unfolding notify_if_error
  notify-Quiet c context rc err s = ground arith

  pub cleanup_calls :
      (c : Connection) (s : State host)
      → let (c', s') = cleanup host c s in
        (connects s'.calls ≡ connects s.calls)
        × (disconnects s'.calls
            ≡ disconnects s.calls + (if c.is_connected && c.has_handler then 1 else 0))
        × (c'.is_connected ≡ false)
        × (c'.has_handler ≡ c.has_handler)
  unfolding cleanup
  cleanup_calls c s = ground arith

  queue-Quiet :
      (reset : Bool) (c : Connection) (s : State host)
      → let (rc, c', s') = queue_read_file host reset c s in
        Quiet s s' × (c'.is_connected ≡ c.is_connected) × (c'.has_handler ≡ c.has_handler)
  unfolding queue_read_file notify_if_error
  queue-Quiet reset c s = ground arith

  analyze-Quiet :
      (c : Connection) (request : ContentAnalysisRequest) (s : State host)
      → Quiet s (analyze host c request s).1
  unfolding analyze notify_if_error
  analyze-Quiet c request s = ground arith

  dispatch-Quiet :
      (c : Connection) (m : ChromeToAgent) (s : State host) → Quiet s (dispatch host c m s).1
  unfolding dispatch analyze notify_if_error
  dispatch-Quiet c m s = ground arith

  handle_parsed-Quiet :
      (c : Connection) (parsed : Option ChromeToAgent) (s : State host)
      → Quiet s (handle_parsed host c parsed s).1
  unfolding handle_parsed
  handle_parsed-Quiet c none s = notify-Quiet c _ _ _ s
  handle_parsed-Quiet c (some m) s = dispatch-Quiet c m s

  read-Quiet :
      (done : Bool) (count : ℕ) (c : Connection) (s : State host)
      → let (rc, c', s') = on_read_file host done count c s in
        Quiet s s' × (c'.is_connected ≡ c.is_connected) × (c'.has_handler ≡ c.has_handler)
  unfolding on_read_file call_handler handle_message notify_if_error
  read-Quiet done count c s =
      let c₁ = record c { final_size = (c.final_size + count) % dword } in
      ground (
        arith,
        handle_parsed-Quiet c₁ (host.pb.parse_chrome_to_agent (take c₁.final_size c.buffer)) s,
        handle_parsed-Quiet c₁ (host.pb.parse_negative c₁.final_size c.buffer) s,
      )

  build-Quiet :
      (c : Connection) (s : State host)
      → let (rc, c', s') = build_browser_info host c s in
        Quiet s s' × (c'.is_connected ≡ c.is_connected) × (c'.has_handler ≡ c.has_handler)
  unfolding build_browser_info notify_if_error
  build-Quiet c s = ground arith

  build_codes :
      (c : Connection) (s : State host)
      → let rc = (build_browser_info host c s).0 in
        (code_eq rc more_data ≡ false)
        × (code_eq rc io_pending ≡ false)
        × ((rc ≡ ok) ⊎ (code_eq rc ok ≡ false))
  unfolding build_browser_info
  build_codes c s = ground arith

  continue_failed :
      (rc : ResultCode) (c : Connection) (s : State host)
      → code_eq rc ok ≡ false
      → code_eq rc more_data ≡ false
      → code_eq rc io_pending ≡ false
      → (continue host (rc, c, s)).1.is_connected ≡ false
  unfolding continue
  continue_failed rc c s fine more pending = ground (arith, cleanup_calls c s)

  -- The end of HandleEvent: an error, and only an error, ends the session of the connection.
  continue_calls :
      (rc : ResultCode) (c : Connection) (s : State host)
      → let (rc', c', s') = continue host (rc, c, s) in
        (connects s'.calls ≡ connects s.calls)
        × (disconnects s'.calls + (if c'.is_connected && c.has_handler then 1 else 0)
            ≡ disconnects s.calls + (if c.is_connected && c.has_handler then 1 else 0))
        × (c'.is_connected ≡ (if code_eq rc' ok then c.is_connected else false))
        × (c'.has_handler ≡ c.has_handler)
  unfolding continue
  continue_calls rc c s =
      let q = queue_read_file host (code_eq rc ok) c s in
      ground (arith, queue-Quiet (code_eq rc ok) c s, cleanup_calls q.1 q.2, cleanup_calls c s)

  -- Whether the connection has a browser after HandleEvent.
  pub handle_event_keeps :
      (handle : ℕ) (c : Connection) (s : State host)
      → let (rc, c', s') = handle_event host handle c s in
        (c.is_connected ≡ true → c'.is_connected ≡ code_eq rc ok)
        × (code_eq rc ok ≡ false → c'.is_connected ≡ false)
        × (c'.has_handler ≡ c.has_handler)
  unfolding handle_event accept
  handle_event_keeps handle c s =
      let r = os.read_result handle s.world in
      let d = receive r.1 c in
      let o = on_read_file host r.0 (length r.1) d (at host r.2 s) in
      let c₁ = record c { is_connected = true; buffer = resize buffer_size c.buffer } in
      let a = accept host r.0 c (at host r.2 s) in
      ground (
        arith,
        read-Quiet r.0 (length r.1) d (at host r.2 s),
        build-Quiet c₁ (at host r.2 s),
        continue_calls o.0 o.1 o.2,
        continue_calls a.0 a.1 a.2,
      )

  -- HandleEvent on a connection with a browser and a handler tells the handler of no new
  -- browser. It tells it of a disconnected one exactly once if it returns an error, and never if
  -- it returns OK; and the connection stays connected exactly if it returns OK.
  pub handle_event_connected :
      (handle : ℕ) (c : Connection) (s : State host)
      → let (rc, c', s') = handle_event host handle c s in
        c.is_connected ≡ true
        → c.has_handler ≡ true
        → (connects s'.calls ≡ connects s.calls)
          × (disconnects s'.calls ≡ disconnects s.calls + (if code_eq rc ok then 0 else 1))
          × (c'.is_connected ≡ code_eq rc ok)
  unfolding handle_event
  handle_event_connected handle c s connected handler =
      let r = os.read_result handle s.world in
      let d = receive r.1 c in
      let o = on_read_file host r.0 (length r.1) d (at host r.2 s) in
      ground (arith, read-Quiet r.0 (length r.1) d (at host r.2 s), continue_calls o.0 o.1 o.2)

  -- HandleEvent on a listening connection with a handler tells the handler of a new browser
  -- exactly once if the wait succeeded and the browser's process could be identified, and never
  -- otherwise. If the wait succeeded, then either the connection is connected afterwards or the
  -- handler was told exactly once that a browser disconnected; if the wait failed, neither.
  pub handle_event_listening :
      (handle : ℕ) (c : Connection) (s : State host)
      → let (success, bytes, w₁) = os.read_result handle s.world in
        let c₁ = record c { is_connected = true; buffer = resize buffer_size c.buffer } in
        let identified = code_eq (build_browser_info host c₁ (at host w₁ s)).0 ok in
        let (rc, c', s') = handle_event host handle c s in
        c.is_connected ≡ false
        → c.has_handler ≡ true
        → (connects s'.calls ≡ connects s.calls + (if success && identified then 1 else 0))
          × (disconnects s'.calls + (if c'.is_connected then 1 else 0)
              ≡ disconnects s.calls + (if success then 1 else 0))
  unfolding handle_event accept notify_if_error
  handle_event_listening handle c s listening handler =
      let r = os.read_result handle s.world in
      let c₁ = record c { is_connected = true; buffer = resize buffer_size c.buffer } in
      let a = accept host r.0 c (at host r.2 s) in
      ground (arith, build-Quiet c₁ (at host r.2 s), continue_calls a.0 a.1 a.2)

  -- If a browser connects to a listening connection with a handler, and its process cannot be
  -- identified, then HandleEvent tells the handler once that a browser disconnected, and of no
  -- browser that connected.
  pub unidentified_disconnects :
      (handle : ℕ) (c : Connection) (s : State host)
      → let (success, bytes, w₁) = os.read_result handle s.world in
        let c₁ = record c { is_connected = true; buffer = resize buffer_size c.buffer } in
        let s' = (handle_event host handle c s).2 in
        c.is_connected ≡ false
        → c.has_handler ≡ true
        → success ≡ true
        → (build_browser_info host c₁ (at host w₁ s)).0 ≢ ok
        → (connects s'.calls ≡ connects s.calls)
          × (disconnects s'.calls ≡ suc (disconnects s.calls))
  unfolding handle_event accept
  unidentified_disconnects handle c s listening handler success failed =
      let r = os.read_result handle s.world in
      let c₁ = record c { is_connected = true; buffer = resize buffer_size c.buffer } in
      let b = build_browser_info host c₁ (at host r.2 s) in
      ground (
        arith,
        build-Quiet c₁ (at host r.2 s),
        build_codes c₁ (at host r.2 s),
        continue_calls b.0 b.1 b.2,
        continue_failed b.0 b.1 b.2,
        handle_event_listening handle c s listening handler,
      )
