-- ===== src/Event/Writing.antt =====
-- WriteMessageToPipe of event_win.cc against the documented behaviour of overlapped writes.
pub mod Pending
use content_analysis_sdk.Prelude.{
  ℕ, zero, suc, ◌+◌, ◌-◌, ◌%◌, ◌≤◌, ◌<◌, true, false, ◌≡◌, refl, sym, ap, ◌∙◌, ◌≢◌, ◌⊎◌, inr, [],
  ◌∷◌, ◌++◌, Text, length, take, drop, arith, if◌then◌else◌, ◌==◌, length-drop, take_all,
  take-append-drop, append_assoc, append-nil,
}
use content_analysis_sdk.ResultCode.{error_success, error_io_pending}
use content_analysis_sdk.Windows.{Windows, dword, null_handle}
use content_analysis_sdk.Event.{write_loop, write_message_to_pipe}

-- `sent p w` are the bytes that went into pipe `p` so far. A write that returns TRUE has written all
-- its bytes. One that returns FALSE has a last error that is not ERROR_SUCCESS, and if that is
-- ERROR_IO_PENDING, GetOverlappedResult waits for it: it returns TRUE with the number of bytes, at
-- least one and no more than asked for, or FALSE with a last error that is neither ERROR_SUCCESS nor
-- ERROR_IO_PENDING. An event that cannot be created leaves such a last error too. Events are no part of what was sent.
pub record OverlappedWrites (os : Windows) (sent : ℕ → os.World → Text) : Type 0 where
  pub written :
      (p : ℕ) (bytes : Text) (w : os.World)
      → (os.write_file p bytes w).0 ≡ true
      → sent p (os.write_file p bytes w).1 ≡ sent p w ++ bytes
  pub not_written :
      (p : ℕ) (bytes : Text) (w : os.World)
      → (os.write_file p bytes w).0 ≡ false
      → os.get_last_error (os.write_file p bytes w).1 ≢ error_success
  pub some_bytes :
      (p : ℕ) (bytes : Text) (w : os.World)
      → (os.write_file p bytes w).0 ≡ false
      → os.get_last_error (os.write_file p bytes w).1 ≡ error_io_pending
      → let r = os.write_result p (os.write_file p bytes w).1 in
        r.0 ≡ true
        → bytes ≢ []
        → (0 < r.1) × (r.1 ≤ length bytes) × (sent p r.2 ≡ sent p w ++ take r.1 bytes)
  pub not_completed :
      (p : ℕ) (w : os.World)
      → (os.write_result p w).0 ≡ false
      → (os.get_last_error (os.write_result p w).2 ≢ error_success)
        × (os.get_last_error (os.write_result p w).2 ≢ error_io_pending)
  pub no_event :
      (w : os.World)
      → (os.create_event w).0 ≡ null_handle
      → (os.get_last_error (os.create_event w).1 ≢ error_success)
        × (os.get_last_error (os.create_event w).1 ≢ error_io_pending)
  pub event_created : (p : ℕ) (w : os.World) → sent p (os.create_event w).1 ≡ sent p w
  pub handle_closed : (p h : ℕ) (w : os.World) → sent p (os.close_handle h w) ≡ sent p w

-- What is left after a partial write, on a message that fits a DWORD.
rest-size :
    (n : ℕ) (rest : Text)
    → n ≤ length rest
    → length rest < dword
    → (length rest + dword - n) % dword ≡ length (drop n rest)
rest-size n rest le small = omega (arith, length-drop n rest)

loop_round :
    (os : Windows) (rounds p : ℕ) (rest : Text) (size err : ℕ) (w : os.World)
    → let w₁ = (os.write_file p (take size rest) w).1 in
      let r = os.write_result p w₁ in
      write_loop os (suc rounds) p rest size err w ≡ (
        if size == 0
        then (err, w)
        else if (os.write_file p (take size rest) w).0
        then (error_success, w₁)
        else if os.get_last_error w₁ == error_io_pending
        then if r.0
          then write_loop os rounds p
              (drop r.1 rest)
              ((size + dword - r.1) % dword)
              (os.get_last_error w₁)
              r.2
          else (os.get_last_error r.2, r.2)
        else (os.get_last_error w₁, w₁))
unfolding write_loop
loop_round os rounds p rest size err w = refl

module _ (os : Windows) (sent : ℕ → os.World → Text) (docs : OverlappedWrites os sent) (p : ℕ) where
  open docs use {
    written, not_written, some_bytes, not_completed, no_event, event_created, handle_closed,
  }

  pub loop_step :
      (rounds : ℕ) (x : ℕ) (xs : Text) (err : ℕ) (w : os.World)
      → let rest = x ∷ xs in
        let w₁ = (os.write_file p rest w).1 in
        let r = os.write_result p w₁ in
        length rest < dword
        → write_loop os (suc rounds) p rest (length rest) err w ≡ (
            if (os.write_file p rest w).0
            then (error_success, w₁)
            else if os.get_last_error w₁ == error_io_pending
            then if r.0
              then write_loop os rounds p
                  (drop r.1 rest)
                  (length (drop r.1 rest))
                  error_io_pending
                  r.2
              else (os.get_last_error r.2, r.2)
            else (os.get_last_error w₁, w₁))
  loop_step rounds x xs err w small = ground (
    arith,
    loop_round os rounds p (x ∷ xs) (length (x ∷ xs)) err w,
    take_all (length (x ∷ xs)) (x ∷ xs),
    some_bytes p (x ∷ xs) w,
    rest-size (os.write_result p (os.write_file p (x ∷ xs) w).1).1 (x ∷ xs),
  )

  -- The bytes before and after a partial write make up the message.
  join : (n : ℕ) (before rest : Text) → (before ++ take n rest) ++ drop n rest ≡ before ++ rest
  join n before rest =
      append_assoc before (take n rest) (drop n rest)
      ∙ ap (λ l. before ++ l) (take-append-drop n rest)

  loop_sends :
      (rounds : ℕ) (rest : Text) (err : ℕ) (w : os.World)
      → let (code, w') = write_loop os rounds p rest (length rest) err w in
        length rest ≤ rounds
        → length rest < dword
        → (code ≡ error_success) ⊎ (code ≡ error_io_pending)
        → sent p w' ≡ sent p w ++ rest
  unfolding write_loop
  loop_sends zero [] err w le small e = sym (append-nil (sent p w))
  loop_sends zero (x ∷ xs) err w le small e = absurd (omega arith)
  loop_sends (suc rounds) [] err w le small e = sym (append-nil (sent p w))
  loop_sends (suc rounds) (x ∷ xs) err w le small e =
      let rest = x ∷ xs in
      let w₁ = (os.write_file p rest w).1 in
      let r = os.write_result p w₁ in
      ground (
        arith,
        loop_step rounds x xs err w small,
        written p rest w,
        not_written p rest w,
        some_bytes p rest w,
        not_completed p w₁,
        length-drop r.1 rest,
        loop_sends rounds (drop r.1 rest) error_io_pending r.2,
        join r.1 (sent p w) rest,
      )

  -- Where writes behave as `OverlappedWrites` says, and for a message below 4 GB: from one round
  -- for each byte on, more rounds of the loop of WriteMessageToPipe change nothing.
  pub write_loop_rounds :
      (a b : ℕ) (rest : Text) (err : ℕ) (w : os.World)
      → length rest ≤ a
      → length rest ≤ b
      → length rest < dword
      → write_loop os a p rest (length rest) err w ≡ write_loop os b p rest (length rest) err w
  write_loop_rounds zero zero rest err w ha hb small = refl
  write_loop_rounds zero (suc b) [] err w ha hb small =
      rw (loop_round os b p [] 0 err w) (unfold write_loop in refl)
  write_loop_rounds zero (suc b) (x ∷ xs) err w ha hb small = absurd (omega arith)
  write_loop_rounds (suc a) zero [] err w ha hb small = unfold write_loop in refl
  write_loop_rounds (suc a) zero (x ∷ xs) err w ha hb small = absurd (omega arith)
  write_loop_rounds (suc a) (suc b) [] err w ha hb small = unfold write_loop in refl
  write_loop_rounds (suc a) (suc b) (x ∷ xs) err w ha hb small =
      let rest = x ∷ xs in
      let r = os.write_result p (os.write_file p rest w).1 in
      ground (
        arith,
        loop_step a x xs err w small,
        loop_step b x xs err w small,
        some_bytes p rest w,
        length-drop r.1 rest,
        write_loop_rounds a b (drop r.1 rest) error_io_pending r.2,
      )

  -- Where writes behave as `OverlappedWrites` says: if the code that WriteMessageToPipe of the
  -- agent returns for a message below 4 GB is ERROR_SUCCESS or ERROR_IO_PENDING, then it wrote
  -- exactly the message, each byte once and in order.
  pub write_message_to_pipe_sends :
      (message : Text) (w : os.World)
      → let (code, w') = write_message_to_pipe os p message w in
        length message < dword
        → (code ≡ error_success) ⊎ (code ≡ error_io_pending)
        → sent p w' ≡ sent p w ++ message
  unfolding write_message_to_pipe
  write_message_to_pipe_sends [] w small e = sym (append-nil (sent p w))
  write_message_to_pipe_sends (x ∷ xs) w small e =
      let message = x ∷ xs in
      let c = os.create_event w in
      let size : length message % dword ≡ length message = omega arith in
      ground (
        arith,
        size,
        no_event w,
        event_created p w,
        loop_sends (length message) message error_success c.1,
        handle_closed p c.0
            (write_loop os (length message) p message (length message) error_success c.1).1,
      )
