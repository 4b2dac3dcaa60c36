-- ===== src/Client/Connecting.antt =====
-- ConnectToPipe of browser/src/client_win.cc when the pipe is busy.
use content_analysis_sdk.Prelude.{ℕ, suc, true, false, ◌≡◌, Text, arith, is_empty}
use content_analysis_sdk.Windows.{Windows, invalid_handle_value}
use content_analysis_sdk.Client.{
  returned, status_success, status_pipe_not_available, unicode_string, wait_for_pipe_availability,
  connect_loop, connect_to_pipe, enter_message_mode,
}

module _ (os : Windows) where
  -- ConnectToPipe when the pipe is not available at first and the wait for it ends with success:
  -- it does not open the pipe again, but goes on with the handle that the refused open left. If
  -- that is INVALID_HANDLE_VALUE, and no mode can be set on that handle, then ConnectToPipe sets
  -- no handle and returns the error of SetNamedPipeHandleState.
  pub connect_to_pipe_no_retry :
      (rounds : ℕ) (pipename : Text) (old : ℕ) (w : os.World)
      → let w₁ = (os.find_nt_create_file w).1 in
        let (wide, w₂) = os.multi_byte_to_wide_char pipename w₁ in
        let name = unicode_string wide in
        let (sts, h, w₃) = os.nt_create_file name invalid_handle_value w₂ in
        let (waited, w₄) = wait_for_pipe_availability os name w₃ in
        let (set, w₅) = os.set_message_read_mode invalid_handle_value w₄ in
        (os.find_nt_create_file w).0 ≡ true
        → is_empty wide ≡ false
        → sts ≡ status_pipe_not_available
        → h ≡ invalid_handle_value
        → waited ≡ status_success
        → set ≡ false
        → connect_to_pipe os (suc rounds) pipename old w
          ≡ returned (os.get_last_error w₅, old, os.close_handle invalid_handle_value w₅)
  unfolding connect_to_pipe connect_loop enter_message_mode
  connect_to_pipe_no_retry rounds pipename old w found named busy invalid waited unset =
      ground arith
