-- ===== src/Windows/Handles.antt =====
-- The handles that a process has open, as the calls of browser/src/client_win.cc and
-- common/utils_win.cc change them.
use content_analysis_sdk.Prelude.{
  ℕ, true, false, Option, none, some, List, [], ◌∷◌, ◌≡◌, arith, Text, is_empty, ◌==◌,
  if◌then◌else◌,
}
use content_analysis_sdk.ResultCode.{error_success}
use content_analysis_sdk.Windows.{Windows, null_handle, invalid_handle_value}

abbrev pub erase : ℕ → List ℕ → List ℕ
erase h [] = []
erase h (x ∷ xs) = if h == x then xs else x ∷ erase h xs

abbrev pub with_handle : Option ℕ → List ℕ → List ℕ
with_handle none hs = hs
with_handle (some h) hs = h ∷ hs

pub erase_newest : (h : ℕ) (hs : List ℕ) → erase h (h ∷ hs) ≡ hs
erase_newest h hs = ground arith

-- What is documented of the calls: which of them open a handle and when, that CloseHandle closes the
-- handle it is given, that a status other than success leaves the handle of NtCreateFile as it was,
-- that no handle that is opened has the value INVALID_HANDLE_VALUE, on which no mode can be set, and
-- that a call that failed has an error.
pub record TracksHandles (os : Windows) (open_handles : os.World → List ℕ) : Type 0 where
  pub closed :
      (h : ℕ) (w : os.World) → open_handles (os.close_handle h w) ≡ erase h (open_handles w)
  pub thread_token :
      (w : os.World)
      → let (token, w') = os.open_thread_token w in
        open_handles w' ≡ with_handle token (open_handles w)
  pub process_token :
      (w : os.World)
      → let (token, w') = os.open_process_token w in
        open_handles w' ≡ with_handle token (open_handles w)
  pub user : (h size : ℕ) (w : os.World) → open_handles (os.token_user h size w).2 ≡ open_handles w
  pub sid : (u : ℕ) (w : os.World) → open_handles (os.convert_sid_to_string u w).1 ≡ open_handles w
  pub freed : (address : ℕ) (w : os.World) → open_handles (os.local_free address w) ≡ open_handles w
  pub process :
      (pid : ℕ) (w : os.World)
      → let (h, w') = os.open_process pid w in
        open_handles w' ≡ (if h == null_handle then open_handles w else h ∷ open_handles w)
  pub image :
      (h : ℕ) (w : os.World) → open_handles (os.query_process_image_name h w).1 ≡ open_handles w
  pub found : (w : os.World) → open_handles (os.find_nt_create_file w).1 ≡ open_handles w
  pub controls : (w : os.World) → open_handles (os.find_nt_fs_control_file w).1 ≡ open_handles w
  pub wide :
      (text : Text) (w : os.World)
      → open_handles (os.multi_byte_to_wide_char text w).1 ≡ open_handles w
  pub created :
      (name : List ℕ) (h : ℕ) (w : os.World)
      → let (status, h', w') = os.nt_create_file name h w in
        ((status == 0) ≡ true → open_handles w' ≡ h' ∷ open_handles w)
        × ((status == 0) ≡ false → (h' ≡ h) × (open_handles w' ≡ open_handles w))
  pub valid :
      (name : List ℕ) (h : ℕ) (w : os.World)
      → let (status, h', w') = os.nt_create_file name h w in
        (status == 0) ≡ true → (h' == invalid_handle_value) ≡ false
  pub device :
      (name : List ℕ) (h : ℕ) (w : os.World)
      → let (status, h', w') = os.open_device name h w in
        open_handles w' ≡ (if status == 0 then h' ∷ open_handles w else open_handles w)
  pub waited :
      (h : ℕ) (name : List ℕ) (w : os.World)
      → open_handles (os.wait_for_pipe h name w).1 ≡ open_handles w
  pub mode : (h : ℕ) (w : os.World) → open_handles (os.set_message_read_mode h w).1 ≡ open_handles w
  pub no_mode : (w : os.World) → (os.set_message_read_mode invalid_handle_value w).0 ≡ false
  pub mode_error :
      (h : ℕ) (w : os.World)
      → let (set, w') = os.set_message_read_mode h w in
        set ≡ false → (os.get_last_error w' == error_success) ≡ false
  pub wide_error :
      (text : Text) (w : os.World)
      → let (wide, w') = os.multi_byte_to_wide_char text w in
        is_empty wide ≡ true → (os.get_last_error w' == error_success) ≡ false
  pub server : (h : ℕ) (w : os.World) → open_handles (os.server_process_id h w).1 ≡ open_handles w
  pub flushed : (h : ℕ) (w : os.World) → open_handles (os.flush_file_buffers h w) ≡ open_handles w
