-- ===== src/Demo/CommandLine.antt =====
-- ParseCommandLine of demo/agent.cc and of demo/client.cc. What they print is left out.
pub mod SamePipe
use content_analysis_sdk.Prelude.{
  ℕ, zero, suc, ◌+◌, ◌-◌, ◌*◌, ◌%◌, ◌^◌, Bool, true, false, ◌&&◌, ◌||◌, not, Option, none, some,
  List, [], ◌∷◌, ◌++◌, Text, codes, length, drop, is_empty, starts_with, text_eq, stoul, ltb, leb,
  ◌==◌, if◌then◌else◌,
}
use content_analysis_sdk.Proto.{AnalysisConnector}

-- ParseCommandLine returns true with its settings, or returns false, or lets the exception of
-- `std::stoul` through.
pub data Parsed (A : Type 0) : Type 0 where
  accepted : A → Parsed A
  refused thrown : Parsed A

abbrev pub path_user : Text
path_user = codes "path_user"

abbrev pub path_system : Text
path_system = codes "brcm_chrm_cas"

-- `arg.substr(strlen(name))`.
abbrev pub argument : Text → Text → Text
argument name arg = drop (length name) arg

-- The global settings of demo/agent.cc.
pub record AgentOptions : Type 0 where
  pub path : Text
  pub use_queue : Bool
  pub user_specific : Bool
  pub delay : ℕ
  pub num_threads : ℕ
  pub save_print_data_path : Text

abbrev pub agent_defaults : AgentOptions
agent_defaults = record {
  path = path_system;
  use_queue = false;
  user_specific = false;
  delay = 0;
  num_threads = 8;
  save_print_data_path = [];
}

unfoldable pub agent_option : Text → AgentOptions → Parsed AgentOptions
agent_option arg o =
    if starts_with arg (codes "--user")
    then if text_eq o.path path_system
      then accepted (record o { path = path_user; user_specific = true })
      else refused
    else if starts_with arg (codes "--delay=")
    then elim (stoul (argument (codes "--delay=") arg)) [
      | none ↦ thrown
      | some n ↦ accepted (record o { delay = if ltb 30 n then 30 else n })
    ]
    else if starts_with arg (codes "--path=")
    then accepted (record o { path = argument (codes "--path=") arg })
    else if starts_with arg (codes "--queued")
    then accepted (record o { use_queue = true })
    else if starts_with arg (codes "--threads=")
    then elim (stoul (argument (codes "--threads=") arg)) [
      | none ↦ thrown
      | some n ↦ accepted (record o { num_threads = n })
    ]
    else if starts_with arg (codes "--help")
    then refused
    else if starts_with arg (codes "--save-print-request-data-to=")
    then accepted
        (record o { save_print_data_path = argument (codes "--save-print-request-data-to=") arg })
    else accepted o

-- The loop, over the arguments behind the name of the program.
unfoldable pub parse_agent : List Text → AgentOptions → Parsed AgentOptions
parse_agent [] o = accepted o
parse_agent (arg ∷ args) o = elim (agent_option arg o) [
  | accepted next ↦ parse_agent args next
  | refused ↦ refused
  | thrown ↦ thrown
]

-- The global settings of demo/client.cc that the command line changes.
pub record ClientOptions : Type 0 where
  pub path : Text
  pub user_specific : Bool
  pub group : Bool
  pub connector : AnalysisConnector
  pub request_token : Text
  pub tag : Text
  pub threaded : Bool
  pub digest : Text
  pub url : Text
  pub email : Text
  pub machine_user : Text
  pub datas : List Text

abbrev pub client_defaults : ClientOptions
client_defaults = record {
  path = path_system;
  user_specific = false;
  group = false;
  connector = AnalysisConnector.file_attached;
  request_token = [];
  tag = codes "dlp";
  threaded = false;
  digest = codes "sha256-123456";
  url = codes "https://upload.example.com";
  email = codes "me@example.com";
  machine_user = codes "DOMAIN\\me";
  datas = [];
}

pub connector_of : Text → Option AnalysisConnector
connector_of name =
    if text_eq name (codes "download")
    then some AnalysisConnector.file_downloaded
    else if text_eq name (codes "attach")
    then some AnalysisConnector.file_attached
    else if text_eq name (codes "bulk-data-entry")
    then some AnalysisConnector.bulk_data_entry
    else if text_eq name (codes "print")
    then some AnalysisConnector.print
    else if text_eq name (codes "file-transfer")
    then some AnalysisConnector.file_transfer
    else if text_eq name (codes "data-copied")
    then some AnalysisConnector.data_copied
    else none

pub client_option : Text → ClientOptions → Parsed ClientOptions
client_option arg o =
    if starts_with arg (codes "--connector=")
    then elim (connector_of (argument (codes "--connector=") arg)) [
      | none ↦ refused
      | some found ↦ accepted (record o { connector = found })
    ]
    else if starts_with arg (codes "--request-token=")
    then accepted (record o { request_token = argument (codes "--request-token=") arg })
    else if starts_with arg (codes "--tag=")
    then accepted (record o { tag = argument (codes "--tag=") arg })
    else if starts_with arg (codes "--threaded")
    then accepted (record o { threaded = true })
    else if starts_with arg (codes "--digest=")
    then accepted (record o { digest = argument (codes "--digest=") arg })
    else if starts_with arg (codes "--url=")
    then accepted (record o { url = argument (codes "--url=") arg })
    else if starts_with arg (codes "--machine-user=")
    then accepted (record o { machine_user = argument (codes "--machine-user=") arg })
    else if starts_with arg (codes "--email=")
    then accepted (record o { email = argument (codes "--email=") arg })
    else if starts_with arg (codes "--path=")
    then accepted (record o { path = argument (codes "--path=") arg })
    else if starts_with arg (codes "--user")
    then if text_eq o.path path_system
      then accepted (record o { path = path_user; user_specific = true })
      else refused
    else if starts_with arg (codes "--group")
    then accepted (record o { group = true })
    else if starts_with arg (codes "--help")
    then refused
    else accepted (record o { datas = o.datas ++ (arg ∷ []) })

pub parse_client : List Text → ClientOptions → Parsed ClientOptions
parse_client [] o = accepted o
parse_client (arg ∷ args) o = elim (client_option arg o) [
  | accepted next ↦ parse_client args next
  | refused ↦ refused
  | thrown ↦ thrown
]
