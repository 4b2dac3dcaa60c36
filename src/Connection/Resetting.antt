-- ===== src/Connection/Resetting.antt =====
-- Reset of a connection (agent/src/agent_win.cc) and the handles that it owns.
use content_analysis_sdk.Prelude.{
  ◌+◌, ◌&&◌, true, false, Bool, ◌≡◌, ◌≢◌, Text, arith, if◌then◌else◌, ◌==◌,
}
use content_analysis_sdk.ResultCode.{ok}
use content_analysis_sdk.Windows.{null_handle, invalid_handle_value}
use content_analysis_sdk.Host.{Host, State}
use content_analysis_sdk.Connection.{
  Connection, is_valid, cleanup, obtain_pipe, reset_and_connect, reset_internal, delete_connection,
  reset, new_connection, notify_if_error, at, unopened,
}
use content_analysis_sdk.Connection.Sessions.{Quiet, connects, disconnects}

module _ (host : Host) where
  open host use {os}

  -- ResetInternal that fails on a connection which has a pipe and no browser: it drops the handle of
  -- the pipe after the calls that failed and a CancelIoEx, and the destructor then closes only the
  -- event, if there is one.
  pub reset_internal_leaks :
      (pipename : Text) (user_specific first : Bool) (c : Connection) (s : State host)
      → let (rc, c₁, w₁) = obtain_pipe host pipename user_specific first c s.world in
        let w₂ = (reset_and_connect host rc c₁ w₁).1 in
        let (rc', c', s') = reset_internal host pipename user_specific first c s in
        is_valid c ≡ true
        → c.is_connected ≡ false
        → rc' ≢ ok
        → (c'.handle ≡ invalid_handle_value)
          × (s'.world ≡ os.cancel_io c.handle w₂)
          × ((delete_connection host c' s').world ≡ (
              if c.event == null_handle
              then os.cancel_io c.handle w₂
              else os.close_handle c.event (os.cancel_io c.handle w₂)))
  unfolding reset_internal obtain_pipe cleanup delete_connection
  reset_internal_leaks pipename user_specific first c s valid listening failed = ground arith

  -- Reset and the constructor tell the handler of no browser, and leave no browser connected.
  reset_internal_calls :
      (pipename : Text) (user_specific first : Bool) (c : Connection) (s : State host)
      → let (rc, c', s') = reset_internal host pipename user_specific first c s in
        c.is_connected ≡ false
        → Quiet host s s' × (c'.is_connected ≡ false) × (c'.has_handler ≡ c.has_handler)
  unfolding reset_internal obtain_pipe cleanup
  reset_internal_calls pipename user_specific first c s listening = ground arith

  pub reset_calls :
      (pipename : Text) (user_specific : Bool) (c : Connection) (s : State host)
      → let (rc, c', s') = reset host pipename user_specific c s in
        c.is_connected ≡ false
        → Quiet host s s' × (c'.is_connected ≡ false) × (c'.has_handler ≡ c.has_handler)
  unfolding reset notify_if_error
  reset_calls pipename user_specific c s listening =
      ground (arith, reset_internal_calls pipename user_specific false c s listening)

  pub new_connection_calls :
      (pipename : Text) (user_specific has_handler first : Bool) (s : State host)
      → let (rc, c', s') = new_connection host pipename user_specific has_handler first s in
        Quiet host s s' × (c'.is_connected ≡ false) × (c'.has_handler ≡ has_handler)
  unfolding new_connection
  new_connection_calls pipename user_specific has_handler first s =
      let (event, w₁) = os.create_event s.world in
      ground (
        arith,
        reset_internal_calls pipename user_specific first (unopened has_handler event)
            (at host w₁ s),
      )

  -- The destructor ends the session of a connected browser.
  pub delete_connection_calls :
      (c : Connection) (s : State host)
      → let s' = delete_connection host c s in
        (connects s'.calls ≡ connects s.calls)
        × (disconnects s'.calls
            ≡ disconnects s.calls + (if c.is_connected && c.has_handler then 1 else 0))
  unfolding delete_connection cleanup
  delete_connection_calls c s = ground arith
