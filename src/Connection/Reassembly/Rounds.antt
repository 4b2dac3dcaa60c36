-- ===== src/Connection/Reassembly/Rounds.antt =====
-- HandleEvent and QueueReadFile of agent/src/agent_win.cc over a pipe in message mode, which CreatePipe
-- asks for: how many events a message takes.
use content_analysis_sdk.Prelude.{
  ℕ, zero, suc, ◌+◌, ◌*◌, ◌^◌, ◌≤◌, ◌<◌, false, List, [], ◌∷◌, ◌++◌, ◌≡◌, refl, sym, ap, ◌∙◌, ◌⊎◌,
  inl, inr, Text, length, take, drop, arith, append_assoc, length-take, length-drop,
  take-append-drop, length-append,
}
use content_analysis_sdk.ResultCode.{error_to_result_code}
use content_analysis_sdk.Windows.{dword}
use content_analysis_sdk.Windows.Messages.{Completes}
use content_analysis_sdk.PipeName.{buffer_size}
use content_analysis_sdk.Host.{Host, State}
use content_analysis_sdk.Connection.{Connection, receive, at}
use content_analysis_sdk.Connection.Reading.{
  on_read_file, queue_read_file, handle_message, continue, handle_event,
}
use content_analysis_sdk.Connection.Reassembly.{
  Holds, Fills, CanRead, fill_step, partial-Holds, queue_fine,
}
use content_analysis_sdk.Connection.Reassembly.Message.{
  joined, feed, AllFill, Ends, handle_event_reassembles,
}

module _ (host : Host) where
  open host use {os}

  -- What is documented of a pipe in message mode that is read with an event: `left rest w` says what
  -- is left of the message at the front of the pipe, and `waits size rest w` that a read of `size`
  -- bytes of it was started.
  pub record ReadsMessages (left : Text → os.World → Type 0) (waits : ℕ → Text → os.World → Type 0)
      (event pipe : ℕ) : Type 0 where
    pub completes :
        (size : ℕ) (rest : Text) (w : os.World)
        → waits size rest w
        → let (success, bytes, w₁) = os.read_result event w in
          Completes os left size rest success bytes w₁
    pub queues :
        (size : ℕ) (rest : Text) (w : os.World)
        → left rest w
        → CanRead host pipe size w × waits size rest (os.read_file pipe size w).2

  queue_state :
      (c : Connection) (s : State host)
      → CanRead host c.handle c.read_size s.world
      → let (rc, c', s') = queue_read_file host false c s in
        (c' ≡ c) × (s'.world ≡ (os.read_file c.handle c.read_size s.world).2)
  unfolding queue_read_file error_to_result_code
  queue_state c s h = ground arith

  partial_event :
      (count : ℕ) (c : Connection) (s : State host)
      → (on_read_file host false count c s).1.event ≡ c.event
  unfolding on_read_file
  partial_event count c s = ground arith

  -- The state that HandleEvent leaves when a read filled the buffer.
  fill_state :
      (part chunk : Text) (c : Connection) (s : State host)
      → Holds part c
      → Fills host chunk c s
      → let (rc, c', s') = handle_event host c.event c s in
        (c'.handle ≡ c.handle)
        × (c'.event ≡ c.event)
        × (c'.read_size ≡ buffer_size)
        × (s'.world ≡ (os.read_file c.handle buffer_size (os.read_result c.event s.world).2).2)
  unfolding handle_event continue
  fill_state part chunk c s h f =
      let w₁ = (os.read_result c.event s.world).2 in
      let r = on_read_file host false (length chunk) (receive chunk c) (at host w₁ s) in
      ground (
        arith,
        partial-Holds host part chunk c (at host w₁ s),
        partial_event (length chunk) (receive chunk c) (at host w₁ s),
        queue_fine host r.1 r.2,
        queue_state r.1 r.2,
      )

  handled_whole :
      (chunks : List Text) (last message : Text) (c : Connection) (s : State host)
      → Holds [] c
      → AllFill host chunks c s
      → let (c', s') = feed host chunks c s in
        let w₁ = (os.read_result c'.event s'.world).2 in
        let d = record (receive last c') { final_size = length message } in
        let (rc, s'') = handle_message host d message (at host w₁ s') in
        Ends host last c' s'
        → length message < 2 ^ 31
        → joined [] chunks ++ last ≡ message
        → (s'.calls ≡ s.calls) × (handle_event host c'.event c' s' ≡ continue host (rc, d, s''))
  handled_whole chunks last message c s h fs ends small whole =
      rw (sym whole) (handle_event_reassembles host chunks last c s h fs ends (rw whole small))

  module _ (left : Text → os.World → Type 0) (waits : ℕ → Text → os.World → Type 0) where
    -- The next event either ends the message or fills the buffer, with a read of the rest waiting.
    one_event :
        (event pipe : ℕ) (docs : ReadsMessages left waits event pipe) (part rest : Text)
        (c : Connection) (s : State host)
        → Holds part c
        → c.event ≡ event
        → c.handle ≡ pipe
        → waits c.read_size rest s.world
        → length part + length rest + buffer_size < dword
        → let chunk = take c.read_size rest in
          let (rc, c', s') = handle_event host c.event c s in
          ((length rest ≤ c.read_size) × Ends host rest c s)
          ⊎ ((c.read_size < length rest)
              × Fills host chunk c s
              × Holds (part ++ chunk) c'
              × (c'.event ≡ event)
              × (c'.handle ≡ pipe)
              × (c'.read_size ≡ buffer_size)
              × waits c'.read_size (drop c.read_size rest) s'.world)
    one_event event pipe docs part rest c s h at_event at_pipe w small =
        elim (docs.completes c.read_size rest s.world w) [
          | inl (fits, done, bytes) ↦ inl (fits, rw at_event (done, bytes, fits))
          | inr (lt, failed, err, bytes, behind) ↦
              let w₁ = (os.read_result event s.world).2 in
              let (can, queued) = docs.queues buffer_size (drop c.read_size rest) w₁ behind in
              let f : Fills host (take c.read_size rest) c s =
                rw (at_event, at_pipe)
                  (
                    failed,
                    bytes,
                    err,
                    omega (arith, lt, length-take c.read_size rest),
                    omega (arith, h.room, small, lt),
                    can,
                  ) in
              let (same_pipe, same_event, size, left_world) =
                fill_state part (take c.read_size rest) c s h f in
              inr (
                lt,
                f,
                (fill_step host part (take c.read_size rest) c s h f).1,
                same_event ∙ at_event,
                same_pipe ∙ at_pipe,
                size,
                rw (size, left_world, at_event, at_pipe) queued,
              )
        ]

    -- The events of the rest of a message: so many that fill the buffer, and the last one.
    pub arriving :
        (event pipe : ℕ) (docs : ReadsMessages left waits event pipe) (rounds : ℕ)
        (part rest : Text) (c : Connection) (s : State host)
        → Holds part c
        → c.event ≡ event
        → c.handle ≡ pipe
        → waits c.read_size rest s.world
        → length part + length rest + buffer_size < dword
        → length rest ≤ c.read_size + rounds * buffer_size
        → (chunks : List Text) × (last : Text) × AllFill host chunks c s
          × (let (c', s') = feed host chunks c s in Ends host last c' s')
          × (length chunks ≤ rounds)
          × (joined part chunks ++ last ≡ part ++ rest)
          × ((feed host chunks c s).0.handle ≡ pipe)
    arriving event pipe docs zero part rest c s h at_event at_pipe w small few =
        elim (one_event event pipe docs part rest c s h at_event at_pipe w small) [
          | inl (fits, ends) ↦ ([], rest, tt, ends, omega arith, refl, at_pipe)
          | inr more ↦ absurd (omega (arith, more.0, few))
        ]
    arriving event pipe docs (suc rounds) part rest c s h at_event at_pipe w small few =
        elim (one_event event pipe docs part rest c s h at_event at_pipe w small) [
          | inl (fits, ends) ↦ ([], rest, tt, ends, omega arith, refl, at_pipe)
          | inr (lt, f, h', same_event, same_pipe, size, waiting) ↦
              let chunk = take c.read_size rest in
              let behind = drop c.read_size rest in
              let r = handle_event host c.event c s in
              let whole = take-append-drop c.read_size rest in
              let (chunks, last, fs, ends, fuel, together, there) =
                arriving event pipe docs rounds (part ++ chunk) behind r.1 r.2 h' same_event
                  same_pipe waiting
                  (omega (
                    arith,
                    small,
                    length-append part chunk,
                    length-append chunk behind,
                    ap (λ (l : Text). length l) whole,
                  ))
                  (omega (arith, few, size, length-drop c.read_size rest)) in
              (
                chunk ∷ chunks,
                last,
                (f, fs),
                ends,
                omega (arith, fuel),
                together ∙ (append_assoc part chunk behind ∙ ap (λ l. part ++ l) whole),
                there,
              )
        ]

    -- A message of fewer than 2 GB that waits at a pipe in message mode, whose
    -- read was started for a connection that holds nothing of a message yet, is handled as a whole,
    -- and after a bounded number of events: beyond the read that was started, as many as the rest has
    -- parts of kBufferSize bytes. The events before the last one do not call the handler; at the last
    -- one HandleEvent parses and dispatches exactly the message before it goes on to the next read.
    pub handle_event_receives :
        (c : Connection) (s : State host) (docs : ReadsMessages left waits c.event c.handle)
        (rounds : ℕ) (message : Text)
        → Holds [] c
        → waits c.read_size message s.world
        → length message < 2 ^ 31
        → length message ≤ c.read_size + rounds * buffer_size
        → (chunks : List Text) × (last : Text) × (length chunks ≤ rounds)
          × (joined [] chunks ++ last ≡ message)
          × (let (c', s') = feed host chunks c s in
              let w₁ = (os.read_result c'.event s'.world).2 in
              let d = record (receive last c') { final_size = length message } in
              let (rc, s'') = handle_message host d message (at host w₁ s') in
              (s'.calls ≡ s.calls)
              × (handle_event host c'.event c' s' ≡ continue host (rc, d, s'')))
    handle_event_receives c s docs rounds message h w small few =
        let (chunks, last, fs, ends, fuel, whole, there) =
          arriving c.event c.handle docs rounds [] message c s h refl refl w (omega (arith, small))
            few in
        (chunks, last, fuel, whole, handled_whole chunks last message c s h fs ends small whole)
