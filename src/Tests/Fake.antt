-- ===== src/Tests/Fake.antt =====
-- An operating system for the tests. Writes are asynchronous and transfer one byte at a time; the
-- completions of reads are scripted; the named pipe is busy for a client.
use content_analysis_sdk.Prelude.{
  ℕ, suc, ◌-◌, Bool, true, false, none, some, List, [], ◌∷◌, ◌++◌, Text, length, take, min, refl,
  arith,
}
use content_analysis_sdk.Proto.{
  ContentAnalysisRequest, Protobuf, empty_chrome_to_agent, text_content,
}
use content_analysis_sdk.Windows.{Windows}
use content_analysis_sdk.Event.{BrowserInfo}
use content_analysis_sdk.Host.{Host}
use content_analysis_sdk.Connection.{Connection}
use content_analysis_sdk.Connection.Reassembly.{Holds}
use content_analysis_sdk.PipeName.{get_process_path}
use content_analysis_sdk.Agent.{Agent}
use content_analysis_sdk.Agent.Clients.{IdentifiesClients}

pub record Completion : Type 0 where
  pub success : Bool
  pub bytes : Text
  pub error : ℕ

pub record World : Type 0 where
  pub last_error : ℕ
  pub outgoing : Text
  pub sent : Text
  pub reads : List Completion
  pub signalled : ℕ
  pub handles : ℕ
  pub views : ℕ

abbrev pub next_read : List Completion → World → Bool × Text × World
next_read [] w = (false, [], record w { last_error = 109 })
next_read (c ∷ cs) w = (c.success, c.bytes, record w { reads = cs; last_error = c.error })

abbrev pub fake : Windows
fake = record {
  World = World;
  get_last_error = λ w. w.last_error;
  create_event = λ w. (10, w);
  set_event = λ h w. (true, w);
  reset_event = λ h w. (true, w);
  close_handle = λ h w. record w { handles = w.handles - 1 };
  wait_for_multiple_objects = λ handles w. (w.signalled, w);
  create_named_pipe = λ name mode pipe_mode instances size descriptor w. (20, w);
  connect_named_pipe = λ h w. (false, record w { last_error = 997 });
  disconnect_named_pipe = λ h w. (true, w);
  client_process_id = λ h w. (some 77, w);
  server_process_id = λ h w. (some 88, w);
  read_file = λ h size w. (false, [], record w { last_error = 997 });
  write_file = λ h bytes w. (false, record w { outgoing = bytes; last_error = 997 });
  read_result = λ h w. next_read w.reads w;
  write_result = λ h w. (
    true,
    min 1 (length w.outgoing),
    record w { sent = w.sent ++ take (min 1 (length w.outgoing)) w.outgoing },
  );
  cancel_io = λ h w. w;
  flush_file_buffers = λ h w. w;
  convert_security_descriptor = λ text w. (some 30, w);
  local_free = λ h w. w;
  open_process = λ pid w. (40, w);
  query_process_image_name = λ h w. (some (1 ∷ []), w);
  open_thread_token = λ w. (some 50, w);
  open_process_token = λ w. (some 51, w);
  token_user = λ h size w. (some 60, 28, w);
  convert_sid_to_string = λ user w. (some (70, 2 ∷ []), w);
  find_nt_create_file = λ w. (true, w);
  find_nt_fs_control_file = λ w. (true, w);
  multi_byte_to_wide_char = λ text w. (text, w);
  nt_create_file = λ name h w. (0xc00000ac, h, w);
  open_device = λ name h w. (0, 80, w);
  wait_for_pipe = λ h name w. (0, w);
  set_message_read_mode = λ h w. (false, record w { last_error = 6 });
  open_process_to_duplicate = λ pid w. (90, record w { handles = suc w.handles });
  duplicate_handle = λ process h w. (91, record w { handles = suc w.handles });
  map_view_of_file = λ h w. (92, record w { views = suc w.views });
  read_memory = λ address size w. some [];
  opens_output = λ path w. true;
}

abbrev pub idle : World
idle = record {
  last_error = 0;
  outgoing = [];
  sent = [];
  reads = [];
  signalled = 0;
  handles = 0;
  views = 0;
}

-- Every message is parsed as the cancellation of the user action of that name.
abbrev pub cancelling : Protobuf
cancelling = record {
  serialize_chrome_to_agent = λ m. 1 ∷ [];
  parse_chrome_to_agent = λ bytes.
      some
        (record empty_chrome_to_agent { cancel = some (record { user_action_id = some bytes }) });
  parse_negative = λ size buffer. none;
  serialize_agent_to_chrome = λ m. 5 ∷ 6 ∷ 7 ∷ [];
  parse_agent_to_chrome = λ bytes. none;
}

abbrev pub host : Host
host = record { os = fake; pb = cancelling; handler = λ c w. w }

-- The same, but no client's process can be found, and no event can be reset.
abbrev pub failing : Host
failing = record {
  os = record fake {
    client_process_id = λ h w. (none, w);
    reset_event = λ h w. (false, record w { last_error = 6 });
  };
  pb = cancelling;
  handler = λ c w. w;
}

abbrev pub browser : BrowserInfo
browser = record { pid = 77; binary_path = 1 ∷ [] }

-- A connection that waits for a browser, and one with a buffer of four bytes that has one.
abbrev pub listener : Connection
listener = record {
  has_handler = true;
  handle = 20;
  event = 11;
  is_connected = false;
  browser_info = record { pid = 0; binary_path = [] };
  buffer = [];
  cursor = none;
  read_size = 0;
  final_size = 0;
}

abbrev pub reader : Connection
reader = record {
  has_handler = true;
  handle = 21;
  event = 12;
  is_connected = true;
  browser_info = browser;
  buffer = 0 ∷ 0 ∷ 0 ∷ 0 ∷ [];
  cursor = some 0;
  read_size = 4;
  final_size = 0;
}

pub reader-Holds : Holds [] reader
reader-Holds = record {
  connected = refl;
  cursor_at = refl;
  room = refl;
  front = refl;
  counted = refl;
  small = omega arith;
}

abbrev pub agent : Agent
agent = record {
  config = record { name = 9 ∷ []; user_specific = false };
  has_handler = true;
  pipename = 9 ∷ [];
  connections = listener ∷ listener ∷ reader ∷ [];
  stop_event = 13;
}

abbrev pub request : ContentAnalysisRequest
request = record {
  request_token = some (1 ∷ 2 ∷ []);
  analysis_connector = none;
  request_data = none;
  tags = (3 ∷ []) ∷ [];
  machine_user = none;
  content_data = some (text_content (b'a' ∷ b'b' ∷ b'l' ∷ b'o' ∷ b'c' ∷ b'k' ∷ b'.' ∷ []));
  expires_at = none;
  user_action_id = none;
  reason = none;
}

pub fake_identifies : IdentifiesClients host
unfolding get_process_path
fake_identifies = record { client = λ h w. refl; path = λ pid w. refl }
