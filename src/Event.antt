-- ===== src/Event.antt =====
-- agent/src/event_base.cc, event_base.h, event_win.cc and event_win.h: one content analysis
-- request, its response, and the sending of the response.
pub mod Response
pub mod Sending
pub mod Debug
pub mod Lifetime
pub mod Writing
use content_analysis_sdk.Prelude.{
  ℕ, zero, suc, ◌+◌, ◌-◌, ◌%◌, Bool, true, false, none, some, List, [], ◌∷◌, Text, length, take,
  drop, is_empty, get_or_default, ◌==◌, if◌then◌else◌,
}
use content_analysis_sdk.ResultCode.{
  ResultCode, ok, missing_result, response_already_sent, missing_request_token, error_success,
  error_io_pending, error_to_result_code,
}
use content_analysis_sdk.Proto.{
  ContentAnalysisRequest, ContentAnalysisResponse, AgentToChrome, AnalysisResult, TriggeredRule,
  Action, block, Status, status_unknown, success, Protobuf, empty_result, response_of,
}
use content_analysis_sdk.Windows.{Windows, null_handle, invalid_handle_value, dword}

pub record BrowserInfo : Type 0 where
  pub pid : ℕ
  pub binary_path : Text

-- ContentAnalysisEventWin with the members of its base class; `pipe` is `hPipe_`.
pub record Event : Type 0 where
  pub browser_info : BrowserInfo
  pub request : ContentAnalysisRequest
  pub agent_to_chrome : AgentToChrome
  pub pipe : ℕ
  pub response_sent : Bool

unfoldable pub create : ℕ → BrowserInfo → ContentAnalysisRequest → Event
create pipe info req = record {
  browser_info = info;
  request = req;
  agent_to_chrome = record { response = none };
  pipe = pipe;
  response_sent = false;
}

-- What UpdateResponse writes into one result.
update_result : Text → Status → AnalysisResult → AnalysisResult
update_result tag status_unknown r = if is_empty tag then r else record r { tag = some tag }
update_result tag status r = record r {
  tag = if is_empty tag then r.tag else some tag;
  status = some status;
}

-- `mutable_results(0)`, or `add_results()` where there is none.
update_first : (AnalysisResult → AnalysisResult) → List AnalysisResult → List AnalysisResult
update_first f [] = f empty_result ∷ []
update_first f (r ∷ rs) = f r ∷ rs

-- UpdateResponse returns OK on every path; the model returns the response that it changed.
unfoldable pub update_response : ContentAnalysisResponse → Text → Status → ContentAnalysisResponse
unfolding update_result update_first
update_response response tag status = record response {
  results = update_first (update_result tag status) response.results;
}

-- `mutable_triggered_rules(0)`, or `add_triggered_rules()`, with its action set.
set_first_action : Action → List TriggeredRule → List TriggeredRule
set_first_action action [] = record { action = some action } ∷ []
set_first_action action (rule ∷ rules) = record rule { action = some action } ∷ rules

set_verdict : Action → Event → ContentAnalysisResponse → List AnalysisResult → ResultCode × Event
unfolding set_first_action
set_verdict action e response [] =
    (missing_result, record e { agent_to_chrome = record { response = some response } })
set_verdict action e response (result ∷ results) =
    let result' = record result {
      triggered_rules = set_first_action action result.triggered_rules;
    } in
    let response' = record response { results = result' ∷ results } in
    (ok, record e { agent_to_chrome = record { response = some response' } })

-- `GetResponse()` goes through `mutable_response()`, also where it is only read.
unfoldable pub set_event_verdict_to : Event → Action → ResultCode × Event
unfolding set_verdict
set_event_verdict_to e action =
    let response = response_of e.agent_to_chrome in set_verdict action e response response.results

unfoldable pub set_event_verdict_to_block : Event → ResultCode × Event
unfolding set_event_verdict_to
set_event_verdict_to_block e = set_event_verdict_to e block

pub first_tag : List Text → Text
first_tag [] = []
first_tag (tag ∷ tags) = tag

unfoldable pub init : Event → ResultCode × Event
unfolding first_tag
init e =
    let token = get_or_default e.request.request_token [] in
    let response = record (response_of e.agent_to_chrome) { request_token = some token } in
    let response' = update_response response (first_tag e.request.tags) success in
    if is_empty token
    then (missing_request_token, e)
    else (ok, record e { agent_to_chrome = record { response = some response' } })

module _ (os : Windows) where
  open os use {
    World, get_last_error, create_event, close_handle, write_file, write_result, flush_file_buffers,
  }

  -- The loop of WriteMessageToPipe: `rest` begins at `cursor`, and `err` is what the last round
  -- left. When the rounds run out the loop is over, if every completed write was of at least one
  -- byte.
  unfoldable pub write_loop : ℕ → ℕ → Text → ℕ → ℕ → World → ℕ × World
  write_loop zero pipe rest size err w = (err, w)
  write_loop (suc rounds) pipe rest size err w =
      let (done, w₁) = write_file pipe (take size rest) w in
      let (completed, written, w₂) = write_result pipe w₁ in
      let more =
        write_loop rounds pipe (drop written rest) ((size + dword - written) % dword)
          (get_last_error w₁) w₂ in
      if size == 0
      then (err, w)
      else if done
      then (error_success, w₁)
      else if get_last_error w₁ == error_io_pending
      then if completed then more else (get_last_error w₂, w₂)
      else (get_last_error w₁, w₁)

  -- The static WriteMessageToPipe of event_win.cc. The destructor of ScopedOverlapped closes the
  -- event.
  unfoldable pub write_message_to_pipe : ℕ → Text → World → ℕ × World
  write_message_to_pipe pipe message w =
      let (event, w₁) = create_event w in
      let size = length message % dword in
      let (err, w₂) = write_loop size pipe message size error_success w₁ in
      if is_empty message
      then (error_success, w)
      else if event == null_handle
      then (get_last_error w₁, w₁)
      else (err, close_handle event w₂)

  module _ (pb : Protobuf) where
    open pb use {serialize_agent_to_chrome}

    -- `Send`.
    unfoldable pub send : Event → World → ResultCode × Event × World
    send e w =
        let (err, w₁) =
          write_message_to_pipe e.pipe (serialize_agent_to_chrome e.agent_to_chrome) w in
        if e.response_sent
        then (response_already_sent, e, w)
        else (error_to_result_code err, record e { response_sent = true }, w₁)

    -- `Shutdown`, which the destructor runs too.
    unfoldable pub shutdown : Event → World → Event × World
    unfolding send
    shutdown e w =
        let (rc, e₁, w₁) = send e w in
        let invalid = invalid_handle_value in
        if e.pipe == invalid
        then (e, w)
        else if e.response_sent
        then (record e { pipe = invalid }, flush_file_buffers e.pipe w)
        else (record e₁ { pipe = invalid }, flush_file_buffers e.pipe w₁)

    -- `Close`.
    unfoldable pub close : Event → World → ResultCode × Event × World
    unfolding shutdown
    close e w = let (e₁, w₁) = shutdown e w in (ok, e₁, w₁)
