-- ===== src/Client/Messages.antt =====
-- ReadNextMessageFromPipe and Send of browser/src/client_win.cc over a pipe in message mode, which
-- ConnectToPipe asks for and SetNamedPipeHandleState grants.
use content_analysis_sdk.Prelude.{
  ℕ, zero, suc, ◌*◌, ◌≤◌, ◌<◌, ◌^◌, true, false, none, some, List, [], ◌∷◌, ◌++◌, ◌≡◌, refl, ap,
  ◌∙◌, ◌⊎◌, inl, inr, Text, length, take, drop, arith, append_assoc, length-take, length-drop,
  take-append-drop, is_empty, ◌==◌,
}
use content_analysis_sdk.ResultCode.{error_more_data, error_io_pending}
use content_analysis_sdk.Windows.{Windows, null_handle}
use content_analysis_sdk.Windows.Messages.{Completes}
use content_analysis_sdk.Proto.{
  ContentAnalysisRequest, ContentAnalysisResponse, Protobuf, empty_chrome_to_agent,
}
use content_analysis_sdk.PipeName.{buffer_size}
use content_analysis_sdk.Connection.Reassembly.Message.{joined}
use content_analysis_sdk.Client.{
  Client, returned, read_once, read_next_message_from_pipe, write_message_to_pipe, send,
}
use content_analysis_sdk.Client.Sending.{send-Delivers}
use content_analysis_sdk.Client.Receiving.{Delivers, read_next_message_from_pipe-Delivers}

-- `left pipe rest w`: `rest` is what is left of the message at the front of the pipe.
module _ (os : Windows) (left : ℕ → Text → os.World → Type 0) where
  -- What is documented of ReadFile on a pipe in message mode: it completes at once, or it is pending
  -- and GetOverlappedResult completes it.
  pub record ReadsMessages : Type 0 where
    pub reads :
        (pipe size : ℕ) (rest : Text) (w : os.World)
        → left pipe rest w
        → let (done, bytes, w₁) = os.read_file pipe size w in
          let (completed, bytes', w₂) = os.read_result pipe w₁ in
          Completes os (left pipe) size rest done bytes w₁
          ⊎ ((done ≡ false)
              × (os.get_last_error w₁ ≡ error_io_pending)
              × Completes os (left pipe) size rest completed bytes' w₂)

  failed_at_once :
      (pipe : ℕ) (w : os.World)
      → let (done, bytes, w₁) = os.read_file pipe buffer_size w in
        done ≡ false
        → os.get_last_error w₁ ≡ error_more_data
        → read_once os pipe w ≡ (some error_more_data, bytes, w₁)
  unfolding read_once
  failed_at_once pipe w failed err = ground arith

  failed_later :
      (pipe : ℕ) (w : os.World)
      → let (done, bytes, w₁) = os.read_file pipe buffer_size w in
        let (completed, bytes', w₂) = os.read_result pipe w₁ in
        done ≡ false
        → os.get_last_error w₁ ≡ error_io_pending
        → completed ≡ false
        → os.get_last_error w₂ ≡ error_more_data
        → read_once os pipe w ≡ (some error_more_data, bytes', w₂)
  unfolding read_once
  failed_later pipe w pending err failed err' = ground arith

  one_read :
      (docs : ReadsMessages) (pipe : ℕ) (rest : Text) (w : os.World)
      → left pipe rest w
      → let (err, bytes, w₁) = read_once os pipe w in
        ((length rest ≤ buffer_size) × (err ≡ none) × (bytes ≡ rest))
        ⊎ ((buffer_size < length rest)
            × (err ≡ some error_more_data)
            × (bytes ≡ take buffer_size rest)
            × left pipe (drop buffer_size rest) w₁)
  unfolding read_once
  one_read docs pipe rest w h = elim (docs.reads pipe buffer_size rest w h) [
    | inl (inl c) ↦ ground (arith, c)
    | inl (inr (lt, failed, err, part, behind)) ↦
        rw (failed_at_once pipe w failed err) (inr (lt, refl, part, behind))
    | inr (p, e, inl c) ↦ ground (arith, p, e, c)
    | inr (p, e, inr (lt, failed, err, part, behind)) ↦
        rw (failed_later pipe w p e failed err) (inr (lt, refl, part, behind))
  ]

  -- The reads of the rest of a message: so many full ones, and the last one.
  delivered :
      (docs : ReadsMessages) (pipe rounds : ℕ) (part rest : Text) (w : os.World)
      → left pipe rest w
      → length rest ≤ suc rounds * buffer_size
      → (chunks : List Text) × (last : Text) × (w' : os.World) × Delivers os pipe chunks last w w'
        × (length chunks ≤ rounds)
        × (joined part chunks ++ last ≡ part ++ rest)
  delivered docs pipe zero part rest w h few = elim (one_read docs pipe rest w h) [
    | inl (fits, err, bytes) ↦
        ([], rest, (read_once os pipe w).2, (err, bytes, fits, refl), omega arith, refl)
    | inr c ↦ absurd (omega (arith, c.0, few))
  ]
  delivered docs pipe (suc rounds) part rest w h few = elim (one_read docs pipe rest w h) [
    | inl (fits, err, bytes) ↦
        ([], rest, (read_once os pipe w).2, (err, bytes, fits, refl), omega arith, refl)
    | inr (lt, err, bytes, behind) ↦
        let chunk = take buffer_size rest in
        let (chunks, last, w', d, fuel, whole) =
          delivered docs pipe rounds (part ++ chunk) (drop buffer_size rest) (read_once os pipe w).2
            behind (omega (arith, few, length-drop buffer_size rest)) in
        (
          chunk ∷ chunks,
          last,
          w',
          (err, bytes, omega (arith, lt, length-take buffer_size rest), d),
          omega (arith, fuel),
          whole
              ∙ (append_assoc part chunk (drop buffer_size rest)
                  ∙ ap (λ l. part ++ l) (take-append-drop buffer_size rest)),
        )
  ]

  -- Over a pipe in message mode ReadNextMessageFromPipe ends, and returns exactly the next message, if
  -- that has fewer than 2 GB: the loop needs no more rounds than there are parts of kBufferSize bytes,
  -- however ReadFile completes.
  pub read_next_message_from_pipe_whole :
      (docs : ReadsMessages) (pipe rounds : ℕ) (message : Text) (w : os.World)
      → left pipe message w
      → length message ≤ suc rounds * buffer_size
      → length message < 2 ^ 31
      → (w' : os.World) × (read_next_message_from_pipe os (suc rounds) pipe w
          ≡ returned (message, w'))
  read_next_message_from_pipe_whole docs pipe rounds message w h few small =
      let (chunks, last, w', d, fuel, whole) = delivered docs pipe rounds [] message w h few in
      (
        w',
        read_next_message_from_pipe-Delivers os pipe chunks last (suc rounds) w w' d
              (omega (arith, fuel)) (rw whole small)
            ∙ ap (λ m. returned (m, w')) whole,
      )

  -- Over a pipe in message mode Send ends, and gives the response that the agent sent, with its event
  -- closed: if an event can be created, the request is written, the message at the front of the pipe
  -- then has at least one byte and fewer than 2 GB, and it is parsed as the message with that response.
  -- The loop needs no more rounds than there are parts of kBufferSize bytes.
  pub send_answered :
      (docs : ReadsMessages) (pb : Protobuf) (rounds : ℕ) (c : Client)
      (request : ContentAnalysisRequest) (response : ContentAnalysisResponse) (bytes : Text)
      (w : os.World)
      → let (event, w₁) = os.create_event w in
        let message = record empty_chrome_to_agent { request = some request } in
        let (success, w₂) =
          write_message_to_pipe os c.pipe (pb.serialize_chrome_to_agent message) w₁ in
        (event == null_handle) ≡ false
        → success ≡ true
        → left c.pipe bytes w₂
        → length bytes ≤ suc rounds * buffer_size
        → is_empty bytes ≡ false
        → length bytes < 2 ^ 31
        → pb.parse_agent_to_chrome bytes ≡ some (record { response = some response })
        → (w' : os.World) × (send os pb (suc rounds) c request w
            ≡ returned (some response, os.close_handle event w'))
  send_answered docs pb rounds c request response bytes w made sent h few full small parsed =
      let message = record empty_chrome_to_agent { request = some request } in
      let w₁ = (os.create_event w).1 in
      let w₂ = (write_message_to_pipe os c.pipe (pb.serialize_chrome_to_agent message) w₁).1 in
      let (chunks, last, w', d, fuel, whole) = delivered docs c.pipe rounds [] bytes w₂ h few in
      (
        w',
        send-Delivers os pb (suc rounds) c request response chunks last w w' made sent d
            (omega (arith, fuel)) (rw whole full) (rw whole small) (rw whole parsed),
      )
