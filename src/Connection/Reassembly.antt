-- ===== src/Connection/Reassembly.antt =====
-- A message that is larger than the buffer arrives by several reads (HandleEvent, OnReadFile and
-- QueueReadFile of agent/src/agent_win.cc): what is parsed in the end is the message.
pub mod Message
pub mod Rounds
use content_analysis_sdk.Prelude.{
  ℕ, zero, suc, ◌+◌, ◌-◌, ◌%◌, ◌^◌, ◌≤◌, ◌<◌, Bool, true, false, none, some, List, [], ◌∷◌, ◌++◌,
  ◌≡◌, refl, ap, ◌⊎◌, inl, inr, Option, Text, length, take, length-append, ◌∙◌, arith,
  if◌then◌else◌, ◌==◌,
}
use content_analysis_sdk.ResultCode.{
  ResultCode, ok, io_pending, more_data, error_more_data, error_to_result_code, error_io_pending,
}
use content_analysis_sdk.Windows.{dword}
use content_analysis_sdk.PipeName.{buffer_size}
use content_analysis_sdk.Host.{Host, State}
use content_analysis_sdk.Connection.{Connection, resize, overwrite, receive, at}
use content_analysis_sdk.Connection.Buffer.{
  length-resize, take-resize, length-overwrite, take-overwrite,
}
use content_analysis_sdk.Connection.Reading.{
  queue_read_file, handle_message, call_handler, on_read_file, handle_event, continue,
}

-- The bytes `part` of the message have arrived: they stand at the front of the buffer, the cursor
-- is behind them, and the rest of the buffer is what the next read may fill.
pub record Holds (part : Text) (c : Connection) : Type 0 where
  pub connected : c.is_connected ≡ true
  pub cursor_at : c.cursor ≡ some (length part)
  pub room : length part + c.read_size ≡ length c.buffer
  pub front : take (length part) c.buffer ≡ part
  pub counted : c.final_size ≡ length part
  pub small : length c.buffer < dword

-- What the buffer holds up to the end of the bytes that arrived at the cursor.
pub arrived :
    (part bytes buffer : Text)
    → length part + length bytes ≤ length buffer
    → take (length part) buffer ≡ part
    → take (length (part ++ bytes)) (overwrite (length part) bytes buffer) ≡ part ++ bytes
arrived part bytes buffer fits front =
    take-overwrite (length (part ++ bytes)) (length part) bytes buffer (length-append part bytes)
      (omega (arith, length-append part bytes))
    ∙ ap (λ l. l ++ bytes) front

module _ (host : Host) where
  open host use {os}

  pub queue-Holds :
      (c : Connection) (s : State host)
      → c.is_connected ≡ true
      → length c.buffer < dword
      → Holds [] (queue_read_file host true c s).1
  unfolding queue_read_file
  queue-Holds c s connected small = ground arith

  pub keep-Holds :
      (part : Text) (c : Connection) (s : State host)
      → Holds part c
      → Holds part (queue_read_file host false c s).1
  unfolding queue_read_file
  keep-Holds part c s h = ground arith

  pub partial-Holds :
      (part bytes : Text) (c : Connection) (s : State host)
      → Holds part c
      → length bytes ≡ c.read_size
      → os.get_last_error s.world ≡ error_more_data
      → length c.buffer + buffer_size < dword
      → let r = on_read_file host false (length bytes) (receive bytes c) s in
        (r.0 ≡ more_data)
        × Holds (part ++ bytes) r.1
        × (r.2 ≡ s)
        × (r.1.handle ≡ c.handle)
        × (r.1.read_size ≡ buffer_size)
  unfolding on_read_file error_to_result_code
  partial-Holds part bytes c s h full err small =
      let written = overwrite (length part) bytes c.buffer in
      ground (
        arith,
        arrived part bytes c.buffer,
        length-append part bytes,
        length-overwrite (length part) bytes c.buffer,
        length-resize (length written + buffer_size) written,
        take-resize (length (part ++ bytes)) (length written + buffer_size) written,
      )

  -- The last read: the handler gets the message that the bytes make up.
  pub last_call :
      (part bytes : Text) (c : Connection) (s : State host)
      → Holds part c
      → length bytes ≤ c.read_size
      → length (part ++ bytes) < 2 ^ 31
      → let message = part ++ bytes in
        let d = record (receive bytes c) { final_size = length message } in
        let (rc, s') = handle_message host d message s in
        on_read_file host true (length bytes) (receive bytes c) s ≡ (rc, d, s')
  unfolding on_read_file call_handler
  last_call part bytes c s h fits small =
      ground (arith, arrived part bytes c.buffer, length-append part bytes)

  -- Queuing a read does not fail.
  abbrev pub CanRead : ℕ → ℕ → os.World → Type 0
  CanRead handle size w =
      let r = os.read_file handle size w in
      (r.0 ≡ true)
      ⊎ ((os.get_last_error r.2 ≡ error_io_pending) ⊎ (os.get_last_error r.2 ≡ error_more_data))

  pub queue_fine :
      (c : Connection) (s : State host)
      → CanRead c.handle c.read_size s.world
      → let (rc, c', s') = queue_read_file host false c s in
        ((rc ≡ ok) ⊎ ((rc ≡ io_pending) ⊎ (rc ≡ more_data))) × (s'.calls ≡ s.calls)
  unfolding queue_read_file error_to_result_code
  queue_fine c s h = ground arith

  -- The next completion of a read brings `chunk`, which fills the room that is left, and says that
  -- there is more; the buffer may grow, and the read that is queued then does not fail.
  abbrev pub Fills : Text → Connection → State host → Type 0
  Fills chunk c s =
      let (success, bytes, w₁) = os.read_result c.event s.world in
      (success ≡ false)
      × (bytes ≡ chunk)
      × (os.get_last_error w₁ ≡ error_more_data)
      × (length chunk ≡ c.read_size)
      × (length c.buffer + buffer_size < dword)
      × CanRead c.handle buffer_size w₁

  pub fill_step :
      (part chunk : Text) (c : Connection) (s : State host)
      → Holds part c
      → Fills chunk c s
      → let (rc, c', s') = handle_event host c.event c s in
        (rc ≡ ok) × Holds (part ++ chunk) c' × (s'.calls ≡ s.calls)
  unfolding handle_event continue
  fill_step part chunk c s h f =
      let w₁ = (os.read_result c.event s.world).2 in
      let r = on_read_file host false (length chunk) (receive chunk c) (at host w₁ s) in
      ground (
        arith,
        partial-Holds part chunk c (at host w₁ s),
        queue_fine r.1 r.2,
        keep-Holds (part ++ chunk) r.1 r.2,
      )
