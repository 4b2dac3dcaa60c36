-- ===== src/UnitTests/Events.antt =====
-- agent/src/event_win_unittest.cc: a test is the conjunction of its assertions.
use content_analysis_sdk.Prelude.{
  ℕ, Bool, true, false, ◌&&◌, not, Option, none, some, List, [], ◌∷◌, ◌≡◌, refl, Text, codes,
  text_eq, is_some, length, get_or_default, ◌==◌, if◌then◌else◌,
}
use content_analysis_sdk.ResultCode.{ok, missing_request_token, code_eq, error_success}
use content_analysis_sdk.Proto.{
  AnalysisResult, ContentAnalysisRequest, Protobuf, Status, response_of, text_content,
}
use content_analysis_sdk.Windows.{Windows, invalid_handle_value}
use content_analysis_sdk.Event.{BrowserInfo, Event, create, init, send, shutdown, update_response}
use content_analysis_sdk.Event.Response.{token_of}
use content_analysis_sdk.PipeName.{create_pipe, get_pipe_name_for_agent}

abbrev pub bi : BrowserInfo
bi = record { pid = 12345; binary_path = codes "/path/to/binary" }

-- A message as it is declared, with nothing set.
abbrev pub empty_request : ContentAnalysisRequest
empty_request = record {
  request_token = none;
  analysis_connector = none;
  request_data = none;
  tags = [];
  machine_user = none;
  content_data = none;
  expires_at = none;
  user_action_id = none;
  reason = none;
}

abbrev pub foo_request : ContentAnalysisRequest
foo_request = record empty_request {
  request_token = some (codes "req-token");
  tags = codes "foo" ∷ [];
}

-- CreateEvent.
pub create_event : ℕ → BrowserInfo → ContentAnalysisRequest → Event
create_event = create

abbrev pub first_tag_is : Text → List Text → Bool
first_tag_is tag [] = false
first_tag_is tag (t ∷ ts) = text_eq tag t

abbrev pub is_success : Option Status → Bool
is_success (some Status.success) = true
is_success (some Status.status_unknown) = false
is_success (some Status.failure) = false
is_success none = false

-- The assertions on the one result of a response that Init made.
abbrev pub allows : Text → List AnalysisResult → Bool
allows tag [] = false
allows tag (r ∷ s ∷ rs) = false
allows tag (r ∷ []) =
    is_success r.status
    && (is_some r.tag && (text_eq tag (get_or_default r.tag []) && (length r.triggered_rules == 0)))

-- EventTest, Create_BrowserInfo.
unfoldable pub create_browser_info : Bool
unfolding create_event
create_browser_info =
    let event = create_event invalid_handle_value bi foo_request in
    (bi.pid == event.browser_info.pid) && text_eq bi.binary_path event.browser_info.binary_path

-- EventTest, Create_Request.
unfoldable pub create_request : Bool
unfolding create_event
create_request =
    let event = create_event invalid_handle_value bi foo_request in
    (length event.request.tags == 1)
    && (first_tag_is (codes "foo") event.request.tags
        && (is_some event.request.request_token
            && text_eq (token_of foo_request) (token_of event.request)))

-- EventTest, Create_Init.
unfoldable pub create_init : Bool
unfolding create_event
create_init =
    let (rc, event) = init (create_event invalid_handle_value bi foo_request) in
    let response = response_of event.agent_to_chrome in
    code_eq rc ok
    && (text_eq (token_of foo_request) (get_or_default response.request_token [])
        && allows (codes "foo") response.results)

-- EventTest, Create_Init_RequestNoRequestToken.
unfoldable pub create_init_request_no_request_token : Bool
unfolding create_event
create_init_request_no_request_token =
    let request = record empty_request { tags = codes "foo" ∷ [] } in
    let event = create_event invalid_handle_value bi request in
    code_eq (init event).0 missing_request_token

-- EventTest, Write_BadPipe, where an assertion that does not hold ends the test.
module _ (os : Windows) (pb : Protobuf) where
  open os use {World, get_last_error, close_handle}

  pub write_bad_pipe : World → Bool × World
  write_bad_pipe w =
      let (name, w₁) = get_pipe_name_for_agent os (codes "testpipe") false w in
      let (err, pipe, w₂) = create_pipe os name false true 0 w₁ in
      let request = record empty_request {
        request_token = some (codes "req-token");
        tags = codes "dlp" ∷ [];
        content_data = some (text_content (codes "test"));
      } in
      let (rc, event) = init (create pipe bi request) in
      let w₃ = close_handle pipe w₂ in
      let (sent, event₁, w₄) = send os pb event w₃ in
      if (err == error_success) && not (pipe == invalid_handle_value)
      then if code_eq rc ok
        then if get_last_error w₃ == error_success
          then (true, (shutdown os pb event₁ w₄).1)
          else (false, (shutdown os pb event w₃).1)
        else (false, (shutdown os pb event w₂).1)
      else (false, w₂)

-- The tests without a pipe pass.
passes_create_browser_info : create_browser_info ≡ true
unfolding create_browser_info create_event create
passes_create_browser_info = refl

passes_create_request : create_request ≡ true
unfolding create_request create_event create
passes_create_request = refl

passes_create_init : create_init ≡ true
unfolding create_init create_event create init update_response
passes_create_init = refl

passes_create_init_request_no_request_token : create_init_request_no_request_token ≡ true
unfolding create_init_request_no_request_token create_event create init
passes_create_init_request_no_request_token = refl
