-- ===== src/Windows.antt =====
-- The operating system calls of the program, as functions on a state of the operating system
-- that is left abstract. They are not code of this repository, so nothing is assumed of them here;
-- a theorem that relies on documented behaviour has it as a hypothesis.
--
-- A read or a write names its pipe; the OVERLAPPED structure that goes with it is part of the
-- state. The bytes of a read are returned by the call that reports its completion. A call whose
-- result the program does not look at returns the new state only.
pub mod Messages
pub mod Handles
use content_analysis_sdk.Prelude.{ℕ, ◌-◌, ◌^◌, Bool, Option, List, Text}

-- HANDLE values. INVALID_HANDLE_VALUE is ((HANDLE)-1).
abbrev pub null_handle : ℕ
null_handle = 0

abbrev pub invalid_handle_value : ℕ
invalid_handle_value = 2 ^ 64 - 1

-- DWORD is an unsigned number of 32 bits.
abbrev pub dword : ℕ
dword = 2 ^ 32

-- WAIT_FAILED is ((DWORD)0xFFFFFFFF), WAIT_OBJECT_0 is 0.
abbrev pub wait_failed : ℕ
wait_failed = 2 ^ 32 - 1

pub record Windows : Type 1 where
  pub World : Type 0
  pub get_last_error : World → ℕ
  -- A manual reset event in reset state; null on failure.
  pub create_event : World → ℕ × World
  pub set_event : ℕ → World → Bool × World
  pub reset_event : ℕ → World → Bool × World
  pub close_handle : ℕ → World → World
  -- The index of a signalled handle, or WAIT_FAILED.
  pub wait_for_multiple_objects : List ℕ → World → ℕ × World
  -- Name, open mode, pipe mode, instances, size of both buffers, security descriptor.
  pub create_named_pipe : Text → ℕ → ℕ → ℕ → ℕ → ℕ → World → ℕ × World
  pub connect_named_pipe : ℕ → World → Bool × World
  pub disconnect_named_pipe : ℕ → World → Bool × World
  pub client_process_id : ℕ → World → Option ℕ × World
  pub server_process_id : ℕ → World → Option ℕ × World
  -- Pipe and the number of bytes that the buffer holds.
  pub read_file : ℕ → ℕ → World → Bool × Text × World
  pub write_file : ℕ → Text → World → Bool × World
  -- GetOverlappedResult after a read (or a connect), and after a write.
  pub read_result : ℕ → World → Bool × Text × World
  pub write_result : ℕ → World → Bool × ℕ × World
  pub cancel_io : ℕ → World → World
  pub flush_file_buffers : ℕ → World → World
  -- ConvertStringSecurityDescriptorToSecurityDescriptorA.
  pub convert_security_descriptor : Text → World → Option ℕ × World
  pub local_free : ℕ → World → World
  -- OpenProcess for a query, null on failure; then QueryFullProcessImageNameA.
  pub open_process : ℕ → World → ℕ × World
  pub query_process_image_name : ℕ → World → Option Text × World
  -- OpenThreadToken of the current thread, OpenProcessToken of the current process.
  pub open_thread_token : World → Option ℕ × World
  pub open_process_token : World → Option ℕ × World
  -- GetTokenInformation into a buffer of that size: the user, and the length that is needed.
  pub token_user : ℕ → ℕ → World → Option ℕ × ℕ × World
  -- ConvertSidToStringSidA: the address of the text, and the text.
  pub convert_sid_to_string : ℕ → World → Option (ℕ × Text) × World
  -- NtCreateFile and NtFsControlFile of NtDll.dll are looked up by name.
  pub find_nt_create_file : World → Bool × World
  pub find_nt_fs_control_file : World → Bool × World
  -- The wide characters of a text; none of them on failure.
  pub multi_byte_to_wide_char : Text → World → List ℕ × World
  -- Opening a pipe, or its device, by name: the status and the handle, which had a value before.
  pub nt_create_file : List ℕ → ℕ → World → ℕ × ℕ × World
  pub open_device : List ℕ → ℕ → World → ℕ × ℕ × World
  -- FSCTL_PIPE_WAIT on the device for a pipe of that name.
  pub wait_for_pipe : ℕ → List ℕ → World → ℕ × World
  pub set_message_read_mode : ℕ → World → Bool × World
  -- OpenProcess to duplicate one of its handles, DuplicateHandle from that process into this one,
  -- and MapViewOfFile of the whole file: the handle, or the address; null on failure.
  pub open_process_to_duplicate : ℕ → World → ℕ × World
  pub duplicate_handle : ℕ → ℕ → World → ℕ × World
  pub map_view_of_file : ℕ → World → ℕ × World
  -- So many bytes at an address; none where they cannot be read, as behind a mapped view.
  pub read_memory : ℕ → ℕ → World → Option Text
  -- Whether std::ofstream can open a file.
  pub opens_output : Text → World → Bool
