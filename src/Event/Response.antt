-- ===== src/Event/Response.antt =====
-- The response of an event: Init, UpdateResponse and SetEventVerdictTo (event_win.cc,
-- event_base.cc).
use content_analysis_sdk.Prelude.{
  ℕ, none, some, [], ◌∷◌, ◌≡◌, Text, is_empty, get_or_default, arith, if◌then◌else◌,
}
use content_analysis_sdk.ResultCode.{ok, missing_result, missing_request_token}
use content_analysis_sdk.Proto.{
  ContentAnalysisRequest, ContentAnalysisResponse, AnalysisResult, Action, success, response_of,
}
use content_analysis_sdk.Event.{
  BrowserInfo, Event, create, first_tag, init, update_response, set_event_verdict_to,
}

abbrev pub token_of : ContentAnalysisRequest → Text
token_of req = get_or_default req.request_token []

-- The one result of a response that allows.
abbrev pub allow_result : ContentAnalysisRequest → AnalysisResult
allow_result req =
    let tag = first_tag req.tags in
    record {
      tag = if is_empty tag then none else some tag;
      status = some success;
      triggered_rules = [];
    }

abbrev pub allow_response : ContentAnalysisRequest → ContentAnalysisResponse
allow_response req = record { request_token = some (token_of req); results = allow_result req ∷ [] }

-- Init of a new event refuses a request whose token is missing or empty and leaves the event as it
-- was. It accepts any other request: the response then carries the token of the request and exactly
-- one result, with the first tag of the request (no tag where that is missing or empty), status
-- SUCCESS and no triggered rule, which is the verdict to allow; nothing else of the event changes.
pub init-create :
    (pipe : ℕ) (info : BrowserInfo) (req : ContentAnalysisRequest)
    → let e = create pipe info req in
      init e ≡ (
        if is_empty (token_of req)
        then (missing_request_token, e)
        else (ok, record e { agent_to_chrome = record { response = some (allow_response req) } }))
unfolding create init update_response first_tag
init-create pipe info req = ground arith

-- SetEventVerdictTo fails with ERR_MISSING_RESULT on a response without a result, and returns OK on
-- any other. A verdict set after another gives the code and the event that the later verdict alone
-- gives.
pub set_event_verdict_to_last :
    (e : Event) (earlier later : Action)
    → ((set_event_verdict_to e earlier).0
        ≡ (if is_empty (response_of e.agent_to_chrome).results then missing_result else ok))
      × (set_event_verdict_to (set_event_verdict_to e earlier).1 later
          ≡ set_event_verdict_to e later)
unfolding set_event_verdict_to
set_event_verdict_to_last e earlier later = ground arith
