-- ===== src/Conversation/Verdicts.antt =====
-- The verdict of the demo agent (AnalyzeContent of demo/handler.h) and the acknowledgement of the
-- demo client for it (HandleRequest of demo/client.cc).
use content_analysis_sdk.Prelude.{false, some, ◌≡◌, arith}
use content_analysis_sdk.Proto.{ContentAnalysisRequest, FinalAction}
use content_analysis_sdk.Event.Response.{token_of}
use content_analysis_sdk.Demo.Severity.{
  final_action_of, get_action_from_response, get_action_from_response_max,
}
use content_analysis_sdk.Demo.Handler.{Verdict, failed, blocked, allowed, response_for}
use content_analysis_sdk.Demo.Grouping.{Globals, build_acknowledgement, handle_response}

-- The final action that a verdict stands for. The client lets through what could not be analysed.
abbrev pub outcome_of : Verdict → FinalAction
outcome_of failed = FinalAction.allow
outcome_of blocked = FinalAction.block
outcome_of allowed = FinalAction.allow

final_action_judged :
    (v : Verdict) (request : ContentAnalysisRequest)
    → final_action_of (get_action_from_response (response_for v request)) ≡ outcome_of v
final_action_judged failed request =
    ground (arith, get_action_from_response_max (response_for failed request))
final_action_judged blocked request =
    ground (arith, get_action_from_response_max (response_for blocked request))
final_action_judged allowed request =
    ground (arith, get_action_from_response_max (response_for allowed request))

-- x
pub handle_response_judged :
    (v : Verdict) (request : ContentAnalysisRequest) (g : Globals)
    → handle_response false request (some (response_for v request)) g
      ≡ (g, some (build_acknowledgement (token_of request) (outcome_of v)))
unfolding handle_response
handle_response_judged v request g = ground (arith, final_action_judged v request)
