-- ===== src/Windows/Messages.antt =====
-- Pipes in message mode, which CreatePipe of common/utils_win.cc and ConnectToPipe of
-- browser/src/client_win.cc ask for: what is documented of a read.
use content_analysis_sdk.Prelude.{
  ℕ, ◌≤◌, ◌<◌, Bool, true, false, ◌≡◌, ◌⊎◌, Text, length, take, drop,
}
use content_analysis_sdk.ResultCode.{error_more_data}
use content_analysis_sdk.Windows.{Windows}

-- `left rest w`: `rest` is what is left of the message at the front of a pipe.
module _ (os : Windows) (left : Text → os.World → Type 0) where
  -- A read of `size` bytes that is complete: it brings the rest of the message if that fits, and
  -- otherwise as much of it as fits, fails with ERROR_MORE_DATA and leaves what is behind.
  abbrev pub Completes : ℕ → Text → Bool → Text → os.World → Type 0
  Completes size rest success bytes w =
      ((length rest ≤ size) × (success ≡ true) × (bytes ≡ rest))
      ⊎ ((size < length rest)
          × (success ≡ false)
          × (os.get_last_error w ≡ error_more_data)
          × (bytes ≡ take size rest)
          × left (drop size rest) w)
