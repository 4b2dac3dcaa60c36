-- ===== src/Proto.antt =====
-- proto/content_analysis/sdk/analysis.proto: the messages between the browser and the agent, and
-- the accessors that the program uses of the code which the build generates from them. A field
-- that may be unset is an option; its getter returns the default where it is unset. What no code
-- of the repository reads or writes (csd, printer_type, rule_name, rule_id) is left out.
use content_analysis_sdk.Prelude.{ℕ, Option, none, List, [], Text, get_or_default}

pub data AnalysisConnector : Type 0 where
  analysis_connector_unspecified file_downloaded file_attached : AnalysisConnector
  bulk_data_entry print file_transfer data_copied : AnalysisConnector

pub data Reason : Type 0 where
  unknown clipboard_paste drag_and_drop file_picker_dialog print_preview_print : Reason
  system_dialog_print normal_download save_as_download clipboard_copy : Reason

pub record ContentMetaData : Type 0 where
  pub url : Option Text
  pub filename : Option Text
  pub digest : Option Text
  pub email : Option Text
  pub tab_title : Option Text
  -- The message `print_metadata`, with its one field that is read.
  pub print_metadata : Option (Option Text)

-- The fields are of type int64; they stand here with the 64 bits that the conversions to HANDLE and
-- size_t read.
pub record PrintData : Type 0 where
  pub handle : Option ℕ
  pub size : Option ℕ

-- `oneof content_data`.
pub data ContentData : Type 0 where
  text_content file_path : Text → ContentData
  print_data : PrintData → ContentData

pub record ContentAnalysisRequest : Type 0 where
  pub request_token : Option Text
  pub analysis_connector : Option AnalysisConnector
  pub request_data : Option ContentMetaData
  pub tags : List Text
  -- The one field of `client_metadata.browser`: the outer options are the two messages.
  pub machine_user : Option (Option (Option Text))
  pub content_data : Option ContentData
  pub expires_at : Option ℕ
  pub user_action_id : Option Text
  pub reason : Option Reason

pub data Status : Type 0 where
  status_unknown success failure : Status

pub data Action : Type 0 where
  action_unspecified report_only warn block : Action

-- `Result.TriggeredRule`, with the field that the program uses.
pub record TriggeredRule : Type 0 where
  pub action : Option Action

pub record AnalysisResult : Type 0 where
  pub tag : Option Text
  pub status : Option Status
  pub triggered_rules : List TriggeredRule

pub record ContentAnalysisResponse : Type 0 where
  pub request_token : Option Text
  pub results : List AnalysisResult

pub data AckStatus : Type 0 where
  success invalid_response too_late : AckStatus

pub data FinalAction : Type 0 where
  action_unspecified allow report_only warn block : FinalAction

pub record ContentAnalysisAcknowledgement : Type 0 where
  pub request_token : Option Text
  pub status : Option AckStatus
  pub final_action : Option FinalAction

pub record ContentAnalysisCancelRequests : Type 0 where
  pub user_action_id : Option Text

pub record ChromeToAgent : Type 0 where
  pub request : Option ContentAnalysisRequest
  pub ack : Option ContentAnalysisAcknowledgement
  pub cancel : Option ContentAnalysisCancelRequests

pub record AgentToChrome : Type 0 where
  pub response : Option ContentAnalysisResponse

-- Messages with no field set, as their constructors make them.
abbrev pub empty_response : ContentAnalysisResponse
empty_response = record { request_token = none; results = [] }

abbrev pub empty_result : AnalysisResult
empty_result = record { tag = none; status = none; triggered_rules = [] }

abbrev pub empty_chrome_to_agent : ChromeToAgent
empty_chrome_to_agent = record { request = none; ack = none; cancel = none }

-- `mutable_response()` creates the message where it is unset.
abbrev pub response_of : AgentToChrome → ContentAnalysisResponse
response_of m = get_or_default m.response empty_response

-- Serialising and parsing are the generated code's: bytes of a message, and a message of bytes
-- that are well formed. `parse_negative` is ParseFromArray with a negative size, given as the 32 bits
-- of the `int`, and a buffer: nothing is documented of it.
pub record Protobuf : Type 0 where
  pub serialize_chrome_to_agent : ChromeToAgent → Text
  pub parse_chrome_to_agent : Text → Option ChromeToAgent
  pub parse_negative : ℕ → Text → Option ChromeToAgent
  pub serialize_agent_to_chrome : AgentToChrome → Text
  pub parse_agent_to_chrome : Text → Option AgentToChrome
