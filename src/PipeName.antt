-- ===== src/PipeName.antt =====
-- common/utils_win.cc and utils_win.h: the names of the pipes, their creation, the user's SID and
-- the path of a process.
pub mod Agreement
pub mod Balance
use content_analysis_sdk.Prelude.{
  ℕ, Bool, Option, none, some, [], ◌++◌, Text, codes, is_empty, bit_or, ◌==◌, if◌then◌else◌,
  get_or_default,
}
use content_analysis_sdk.ResultCode.{error_success, error_insufficient_buffer}
use content_analysis_sdk.Windows.{Windows, null_handle, invalid_handle_value}

-- `kBufferSize`.
abbrev pub buffer_size : ℕ
buffer_size = 4096

-- The raw literals `\\.\\pipe\` and `\Device\NamedPipe\`.
abbrev pub pipe_prefix_for_agent : Text
pipe_prefix_for_agent = codes "\\\\.\\\\pipe\\"

abbrev pub pipe_prefix_for_client : Text
pipe_prefix_for_client = codes "\\Device\\NamedPipe\\"

abbrev pub administrators : Text
administrators = codes "ProtectedPrefix\\Administrators\\"

-- Open modes of CreateNamedPipeA (winbase.h).
abbrev pub pipe_access_duplex : ℕ
pipe_access_duplex = 3

abbrev pub file_flag_overlapped : ℕ
file_flag_overlapped = 0x40000000

abbrev pub file_flag_first_pipe_instance : ℕ
file_flag_first_pipe_instance = 0x80000

-- PIPE_TYPE_MESSAGE 4, PIPE_READMODE_MESSAGE 2, PIPE_WAIT 0 and PIPE_REJECT_REMOTE_CLIENTS 8.
abbrev pub pipe_mode : ℕ
pipe_mode = 14

abbrev pub pipe_unlimited_instances : ℕ
pipe_unlimited_instances = 255

abbrev pub dacl_everyone : Text
dacl_everyone = codes "D:(A;OICI;GA;;;CO)(A;OICI;GA;;;BA)(A;OICI;GRGW;;;WD)"

abbrev pub dacl_user_specific : Text
dacl_user_specific = codes "D:(A;OICI;GA;;;CO)(A;OICI;GA;;;BA)(A;OICI;GRGW;;;IU)"

module _ (os : Windows) where
  open os use {
    World, get_last_error, close_handle, create_named_pipe, convert_security_descriptor, local_free,
    open_process, query_process_image_name, open_thread_token, open_process_token, token_user,
    convert_sid_to_string,
  }

  -- The part of GetUserSID behind the opening of a token: the first call asks for the length, the
  -- second fills the buffer, which is empty if the first call did not fail for its size.
  sid_of_token : ℕ → World → Text × World
  sid_of_token handle w =
      let (user, needed, w₁) = token_user handle 0 w in
      let size : ℕ = elim user [
        | some u ↦ 0
        | none ↦ if get_last_error w₁ == error_insufficient_buffer then needed else 0
      ] in
      let (user', needed', w₂) = token_user handle size w₁ in
      elim user' [
        | none ↦ ([], close_handle handle w₂)
        | some u ↦
            let (sid, w₃) = convert_sid_to_string u w₂ in
            elim sid [
              | none ↦ ([], close_handle handle w₃)
              | some (address, text) ↦ (text, close_handle handle (local_free address w₃))
            ]
      ]

  -- GetUserSID, with the empty text on error.
  pub get_user_sid : World → Text × World
  unfolding sid_of_token
  get_user_sid w =
      let (thread, w₁) = open_thread_token w in
      let (process, w₂) = open_process_token w₁ in
      elim thread [
        | some handle ↦ sid_of_token handle w₁
        | none ↦ elim process [ some handle ↦ sid_of_token handle w₂ | none ↦ ([], w₂) ]
      ]

  -- BuildPipeName.
  unfoldable pub build_pipe_name : Text → Text → Bool → World → Text × World
  build_pipe_name prefix base user_specific w =
      let (sid, w₁) = get_user_sid w in
      if user_specific
      then if is_empty sid then ([], w₁) else ((prefix ++ base) ++ (codes "." ++ sid), w₁)
      else ((prefix ++ administrators) ++ base, w)

  unfoldable pub get_pipe_name_for_agent : Text → Bool → World → Text × World
  get_pipe_name_for_agent = build_pipe_name pipe_prefix_for_agent

  pub get_pipe_name_for_client : Text → Bool → World → Text × World
  get_pipe_name_for_client = build_pipe_name pipe_prefix_for_client

  -- CreatePipe: the error, the handle (which keeps its value `old` where the descriptor cannot be
  -- made) and the state.
  unfoldable pub create_pipe : Text → Bool → Bool → ℕ → World → ℕ × ℕ × World
  create_pipe name user_specific is_first_pipe old w =
      let mode = bit_or pipe_access_duplex file_flag_overlapped in
      let dacl = if user_specific then dacl_user_specific else dacl_everyone in
      let (descriptor, w₁) = convert_security_descriptor dacl w in
      let sd = get_or_default descriptor 0 in
      let open_mode = if is_first_pipe then bit_or mode file_flag_first_pipe_instance else mode in
      let (handle, w₂) =
        create_named_pipe name open_mode pipe_mode pipe_unlimited_instances buffer_size sd w₁ in
      let err = if handle == invalid_handle_value then get_last_error w₂ else error_success in
      elim descriptor [
        | none ↦ (get_last_error w₁, old, w₁)
        | some d ↦ (err, handle, local_free d w₂)
      ]

  -- GetProcessPath.
  unfoldable pub get_process_path : ℕ → World → Option Text × World
  get_process_path pid w =
      let (process, w₁) = open_process pid w in
      let (path, w₂) = query_process_image_name process w₁ in
      if process == null_handle then (none, w₁) else (path, close_handle process w₂)
