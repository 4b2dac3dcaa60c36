-- ===== src/Client/Receiving.antt =====
-- ReadNextMessageFromPipe of browser/src/client_win.cc: a message that arrives by several reads.
use content_analysis_sdk.Prelude.{
  ℕ, zero, suc, ◌+◌, ◌-◌, ◌%◌, ◌^◌, ◌≤◌, ◌<◌, none, some, List, [], ◌∷◌, ◌++◌, ◌≡◌, refl, ap, Text,
  length, take, replicate, length-append, length-replicate, arith,
}
use content_analysis_sdk.ResultCode.{error_more_data}
use content_analysis_sdk.Windows.{Windows, dword}
use content_analysis_sdk.PipeName.{buffer_size}
use content_analysis_sdk.Connection.{resize, overwrite}
use content_analysis_sdk.Connection.Buffer.{length-resize, take-resize, length-overwrite}
use content_analysis_sdk.Connection.Reassembly.{arrived}
use content_analysis_sdk.Connection.Reassembly.Message.{joined}
use content_analysis_sdk.Client.{
  returned, read_once, finish, read_loop, read_next_message_from_pipe,
}

resize-take : (n : ℕ) (xs : Text) → n ≤ length xs → resize n xs ≡ take n xs
unfolding resize
resize-take zero xs h = refl
resize-take (suc n) [] h = absurd (omega arith)
resize-take (suc n) (x ∷ xs) h = ap (λ l. x ∷ l) (resize-take n xs (omega arith))

length-joined : (part : Text) (chunks : List Text) → length part ≤ length (joined part chunks)
length-joined part [] = omega arith
length-joined part (chunk ∷ chunks) =
    omega (arith, length-append part chunk, length-joined (part ++ chunk) chunks)

module _ (os : Windows) (pipe : ℕ) where
  -- The pipe delivers a message from `w` on: reads that fill the buffer and say that there is more,
  -- then one that completes the message and leaves `w'`.
  abbrev pub Delivers : List Text → Text → os.World → os.World → Type 0
  Delivers [] last w w' =
      let (err, bytes, w₁) = read_once os pipe w in
      (err ≡ none) × (bytes ≡ last) × (length last ≤ buffer_size) × (w₁ ≡ w')
  Delivers (chunk ∷ chunks) last w w' =
      let (err, bytes, w₁) = read_once os pipe w in
      (err ≡ some error_more_data)
      × (bytes ≡ chunk)
      × (length chunk ≡ buffer_size)
      × Delivers chunks last w₁ w'

  round_end :
      (rounds : ℕ) (buffer : Text) (p size : ℕ) (w : os.World)
      → let (err, bytes, w₁) = read_once os pipe w in
        err ≡ none
        → read_loop os (suc rounds) pipe buffer p size w
          ≡ finish os ((size + length bytes) % dword) (overwrite p bytes buffer) w₁
  unfolding read_loop
  round_end rounds buffer p size w e = ground arith

  round_more :
      (rounds : ℕ) (buffer : Text) (p size : ℕ) (w : os.World)
      → let (err, bytes, w₁) = read_once os pipe w in
        let written = overwrite p bytes buffer in
        let grown = resize (length written + buffer_size) written in
        err ≡ some error_more_data
        → read_loop os (suc rounds) pipe buffer p size w
          ≡ read_loop os rounds pipe grown
              (length grown - buffer_size)
              ((size + length bytes) % dword)
              w₁
  unfolding read_loop
  round_more rounds buffer p size w e = ground arith

  read_loop-Delivers :
      (chunks : List Text) (last part buffer : Text) (rounds : ℕ) (w w' : os.World)
      → Delivers chunks last w w'
      → length chunks < rounds
      → length (joined part chunks ++ last) < 2 ^ 31
      → length buffer ≡ length part + buffer_size
      → take (length part) buffer ≡ part
      → read_loop os rounds pipe buffer (length part) (length part) w
        ≡ returned (joined part chunks ++ last, w')
  unfolding finish
  read_loop-Delivers chunks last part buffer zero w w' d fuel small room front =
      absurd (omega arith)
  read_loop-Delivers [] last part buffer (suc rounds) w w' d fuel small room front = ground (
    arith,
    round_end rounds buffer (length part) (length part) w,
    resize-take (length (part ++ last)) (overwrite (length part) last buffer),
    length-overwrite (length part) last buffer,
    length-append part last,
    arrived part last buffer,
  )
  read_loop-Delivers (chunk ∷ chunks) last part buffer (suc rounds) w w' d fuel small room front =
      let next = part ++ chunk in
      let written = overwrite (length part) chunk buffer in
      let grown = resize (length written + buffer_size) written in
      ground (
        arith,
        round_more rounds buffer (length part) (length part) w,
        length-overwrite (length part) chunk buffer,
        length-resize (length written + buffer_size) written,
        length-append part chunk,
        length-append (joined next chunks) last,
        length-joined next chunks,
        arrived part chunk buffer,
        take-resize (length next) (length written + buffer_size) written,
        read_loop-Delivers chunks last next grown rounds (read_once os pipe w).2 w',
      )

  -- ReadNextMessageFromPipe returns exactly the bytes of a message that the pipe delivers in any
  -- number of reads, each but the last of which fills kBufferSize bytes, in their order, if they are
  -- fewer than 2 GB; one round more than there are full reads is enough.
  pub read_next_message_from_pipe-Delivers :
      (chunks : List Text) (last : Text) (rounds : ℕ) (w w' : os.World)
      → Delivers chunks last w w'
      → length chunks < rounds
      → length (joined [] chunks ++ last) < 2 ^ 31
      → read_next_message_from_pipe os rounds pipe w ≡ returned (joined [] chunks ++ last, w')
  unfolding read_next_message_from_pipe
  read_next_message_from_pipe-Delivers chunks last rounds w w' d fuel small =
      read_loop-Delivers chunks last [] (replicate buffer_size 0) rounds w w' d fuel small
        (length-replicate {A = ℕ} buffer_size 0) refl
