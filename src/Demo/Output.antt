-- ===== src/Demo/Output.antt =====
-- What the demonstration programs print, as text: `stream << a << b` of demo/atomic_output.h, and the
-- descriptions of answers, DumpResponse of demo/client.cc and OnResponseAcknowledged of
-- demo/handler.h.
use content_analysis_sdk.Prelude.{
  Option, none, some, List, [], ◌∷◌, ◌++◌, Text, codes, get_or_default,
}
use content_analysis_sdk.Proto.{
  Action, AnalysisResult, ContentAnalysisResponse, ContentAnalysisAcknowledgement, FinalAction,
  Status,
}
use content_analysis_sdk.Demo.Severity.{get_action_from_result}

-- `std::endl`.
abbrev pub endl : Text
endl = 10 ∷ []

-- The parts of one output expression.
unfoldable pub streamed : List Text → Text
streamed [] = []
streamed (part ∷ parts) = part ++ streamed parts

-- DumpResponse: the words for a status and for an action.
pub status_name : Option Status → Text
status_name none = codes "Unknown"
status_name (some Status.status_unknown) = codes "Unknown"
status_name (some Status.success) = codes "Success"
status_name (some Status.failure) = codes "Failure"

pub action_name : Action → Text
action_name Action.action_unspecified = codes "allowed"
action_name Action.report_only = codes "reported only"
action_name Action.warn = codes "warned"
action_name Action.block = codes "blocked"

-- The line for a result of the response to the request of that token; `now` is what `ctime` gives.
dump_result : Text → Text → AnalysisResult → Text
unfolding streamed status_name action_name
dump_result now token result = streamed (
    codes "[Demo] Request "
    ∷ token
    ∷ codes " is "
    ∷ action_name (get_action_from_result result)
    ∷ codes " after "
    ∷ get_or_default result.tag (codes "<no-tag>")
    ∷ codes " analysis, status="
    ∷ status_name result.status
    ∷ codes " at "
    ∷ now
    ∷ [])

dump_results : Text → Text → List AnalysisResult → Text
dump_results now token [] = []
dump_results now token (result ∷ results) =
    dump_result now token result ++ dump_results now token results

pub dump_response : Text → ContentAnalysisResponse → Text
unfolding dump_results
dump_response now response =
    dump_results now (get_or_default response.request_token []) response.results

-- The words of main for the final action of a group.
pub final_action_name : FinalAction → Text
final_action_name FinalAction.action_unspecified = codes "allowed"
final_action_name FinalAction.allow = codes "allowed"
final_action_name FinalAction.report_only = codes "reported only"
final_action_name FinalAction.warn = codes "warned"
final_action_name FinalAction.block = codes "blocked"

-- OnResponseAcknowledged: the word for a final action, and the output.
pub acknowledged_name : Option FinalAction → Text
acknowledged_name none = codes "<Unknown>"
acknowledged_name (some FinalAction.action_unspecified) = codes "<Unspecified>"
acknowledged_name (some FinalAction.allow) = codes "Allow"
acknowledged_name (some FinalAction.report_only) = codes "Report only"
acknowledged_name (some FinalAction.warn) = codes "Warn"
acknowledged_name (some FinalAction.block) = codes "Block"

pub on_response_acknowledged : ContentAnalysisAcknowledgement → Text
unfolding streamed acknowledged_name
on_response_acknowledged ack = streamed (
    codes "  Ack: "
    ∷ get_or_default ack.request_token []
    ∷ endl
    ∷ codes "  Final action: "
    ∷ acknowledged_name ack.final_action
    ∷ endl
    ∷ [])
