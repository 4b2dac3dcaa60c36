-- ===== src/Event/Writing/Pending.antt =====
-- What WriteMessageToPipe of event_win.cc returns where writes complete asynchronously.
use content_analysis_sdk.Prelude.{
  ℕ, zero, suc, ◌%◌, ◌≤◌, ◌<◌, true, false, ◌≡◌, refl, ◌≢◌, inr, [], ◌∷◌, ◌++◌, Text, length, drop,
  arith, length-drop,
}
use content_analysis_sdk.ResultCode.{error_success, error_io_pending}
use content_analysis_sdk.Windows.{Windows, dword, null_handle}
use content_analysis_sdk.Event.{write_loop, write_message_to_pipe}
use content_analysis_sdk.Event.Writing.{OverlappedWrites, loop_step, write_message_to_pipe_sends}

module _ (os : Windows) (sent : ℕ → os.World → Text) (docs : OverlappedWrites os sent) (p : ℕ) where
  open docs use {some_bytes}

  -- Where writes complete asynchronously the loop ends with the error that the last round left.
  module _
      (pending : (bytes : Text) (w : os.World)
        → ((os.write_file p bytes w).0 ≡ false)
          × (os.get_last_error (os.write_file p bytes w).1 ≡ error_io_pending))
      (completes : (w : os.World) → (os.write_result p w).0 ≡ true) where
    loop_pending :
        (rounds : ℕ) (rest : Text) (w : os.World)
        → length rest ≤ rounds
        → length rest < dword
        → (write_loop os rounds p rest (length rest) error_io_pending w).0 ≡ error_io_pending
    loop_pending zero rest w le small = unfold write_loop in refl
    loop_pending (suc rounds) [] w le small = unfold write_loop in refl
    loop_pending (suc rounds) (x ∷ xs) w le small =
        let rest = x ∷ xs in
        let w₁ = (os.write_file p rest w).1 in
        let r = os.write_result p w₁ in
        ground (
          arith,
          loop_step os sent docs p rounds x xs error_io_pending w small,
          pending rest w,
          completes w₁,
          some_bytes p rest w,
          length-drop r.1 rest,
          loop_pending rounds (drop r.1 rest) r.2,
        )

    message_pending :
        (x : ℕ) (xs : Text) (w : os.World)
        → let message = x ∷ xs in
          length message < dword
          → (write_loop os (length message) p message (length message) error_success w).0
            ≡ error_io_pending
    message_pending x xs w small =
        let rest = x ∷ xs in
        let w₁ = (os.write_file p rest w).1 in
        let r = os.write_result p w₁ in
        ground (
          arith,
          loop_step os sent docs p (length xs) x xs error_success w small,
          pending rest w,
          completes w₁,
          some_bytes p rest w,
          length-drop r.1 rest,
          loop_pending (length xs) (drop r.1 rest) r.2,
        )

    message_code :
        (x : ℕ) (xs : Text) (w : os.World)
        → let message = x ∷ xs in
          length message < dword
          → (os.create_event w).0 ≢ null_handle
          → (write_message_to_pipe os p message w).0 ≡ error_io_pending
    unfolding write_message_to_pipe
    message_code x xs w small event =
        let size : length (x ∷ xs) % dword ≡ length (x ∷ xs) = omega arith in
        ground (arith, size, message_pending x xs (os.create_event w).1 small)

    -- Where writes behave as `OverlappedWrites` says and every write completes asynchronously
    -- with success: for every message that is not empty and below 4 GB, with an event created,
    -- WriteMessageToPipe of the agent returns ERROR_IO_PENDING, and it wrote the whole message.
    pub write_message_to_pipe_pending :
        (x : ℕ) (xs : Text) (w : os.World)
        → let message = x ∷ xs in
          let (code, w') = write_message_to_pipe os p message w in
          length message < dword
          → (os.create_event w).0 ≢ null_handle
          → (code ≡ error_io_pending) × (sent p w' ≡ sent p w ++ message)
    write_message_to_pipe_pending x xs w small event =
        let code = message_code x xs w small event in
        (code, write_message_to_pipe_sends os sent docs p (x ∷ xs) w small (inr code))
