-- ===== src/Demo/Grouping.antt =====
-- HandleRequest of demo/client.cc and the acknowledgements at the end of its main: with --group
-- all requests are acknowledged with one final action. The requests of threads are handled in the
-- order in which they take `global_mutex`. The output is left out.
pub mod Threads
use content_analysis_sdk.Prelude.{
  ℕ, ◌+◌, Bool, true, Option, none, some, List, [], ◌∷◌, ◌++◌, map, ◌≡◌, refl, sym, ◌≤◌, arith,
  Text, ltb, if◌then◌else◌, get_or_default, is_empty, append_assoc, append-nil,
}
use Prim.Native.Nat.{max}
use content_analysis_sdk.Proto.{
  ContentAnalysisRequest, ContentAnalysisResponse, ContentAnalysisAcknowledgement, AckStatus,
  FinalAction,
}
use content_analysis_sdk.Demo.Severity.{
  final_action_of, final_action_number, get_action_from_response, get_action_from_response_max,
  max_of, all_rules,
}

-- `global_final_action` and `request_tokens`.
pub record Globals : Type 0 where
  pub final_action : FinalAction
  pub request_tokens : List Text

abbrev pub start : Globals
start = record { final_action = FinalAction.allow; request_tokens = [] }

pub build_acknowledgement : Text → FinalAction → ContentAnalysisAcknowledgement
build_acknowledgement token action = record {
  request_token = some token;
  status = some AckStatus.success;
  final_action = some action;
}

-- HandleRequest behind the call of Send, which gives no response where it fails: the globals and the
-- acknowledgement that is sent at once.
unfoldable pub handle_response :
    Bool
    → ContentAnalysisRequest
    → Option ContentAnalysisResponse
    → Globals
    → Globals × Option ContentAnalysisAcknowledgement
handle_response group request none g = (g, none)
handle_response group request (some response) g =
    let action = final_action_of (get_action_from_response response) in
    let raised = ltb (final_action_number g.final_action) (final_action_number action) in
    let grouped : Globals = record {
      final_action = if raised then action else g.final_action;
      request_tokens = g.request_tokens ++ (get_or_default request.request_token [] ∷ []);
    } in
    let ack = build_acknowledgement (get_or_default response.request_token []) action in
    if is_empty response.results
    then (g, none)
    else if group
    then (grouped, none)
    else (g, some ack)

abbrev pub Exchange : Type 0
Exchange = ContentAnalysisRequest × Option ContentAnalysisResponse

unfoldable pub handle_all : Bool → List Exchange → Globals → Globals
handle_all group [] g = g
handle_all group ((request, response) ∷ rest) g =
    handle_all group rest (handle_response group request response g).0

-- The loop of main over `request_tokens`.
pub group_acks : Globals → List ContentAnalysisAcknowledgement
group_acks g = map (λ token. build_acknowledgement token g.final_action) g.request_tokens

-- The requests that were answered with a result, and the severity of their answers.
abbrev pub answered : List Exchange → List Text
answered [] = []
answered ((request, none) ∷ rest) = answered rest
answered ((request, some response) ∷ rest) =
    if is_empty response.results
    then answered rest
    else get_or_default request.request_token [] ∷ answered rest

abbrev pub severity : List Exchange → ℕ
severity [] = 0
severity ((request, none) ∷ rest) = severity rest
severity ((request, some response) ∷ rest) =
    max (max_of (all_rules response.results)) (severity rest)

answered_step :
    (request : ContentAnalysisRequest) (response : ContentAnalysisResponse) (g : Globals)
    → let g' = (handle_response true request (some response) g).0 in
      (g'.request_tokens ≡ (
        if is_empty response.results
        then g.request_tokens
        else g.request_tokens ++ (get_or_default request.request_token [] ∷ [])))
      × (1 ≤ final_action_number g.final_action
          → final_action_number g'.final_action
            ≡ max (final_action_number g.final_action) (1 + max_of (all_rules response.results)))
unfolding handle_response
answered_step request response g = ground (arith, get_action_from_response_max response)

unanswered :
    (request : ContentAnalysisRequest) (g : Globals)
    → handle_response true request none g ≡ (g, none)
unfolding handle_response
unanswered request g = refl

pub handle_all_from :
    (exchanges : List Exchange) (g : Globals)
    → let g' = handle_all true exchanges g in
      1 ≤ final_action_number g.final_action
      → (g'.request_tokens ≡ g.request_tokens ++ answered exchanges)
        × (final_action_number g'.final_action
            ≡ max (final_action_number g.final_action) (1 + severity exchanges))
unfolding handle_all
handle_all_from [] g h = (sym (append-nil g.request_tokens), omega arith)
handle_all_from ((request, none) ∷ rest) g h =
    ground (arith, unanswered request g, handle_all_from rest g h)
handle_all_from ((request, some response) ∷ rest) g h =
    let g₁ = (handle_response true request (some response) g).0 in
    ground (
      arith,
      answered_step request response g,
      handle_all_from rest g₁,
      append_assoc g.request_tokens (get_or_default request.request_token [] ∷ []) (answered rest),
    )

-- With --group, the client acknowledges at the end exactly the requests that were answered with a
-- result, in the order of their handling, all with one final action: the most severe one of all
-- answers, ALLOW where no rule has an action.
pub group_acks_lem :
    (exchanges : List Exchange)
    → let g = handle_all true exchanges start in
      (group_acks g
        ≡ map (λ token. build_acknowledgement token g.final_action) (answered exchanges))
      × (final_action_number g.final_action ≡ 1 + severity exchanges)
unfolding group_acks
group_acks_lem exchanges =
    let all = handle_all_from exchanges start (omega arith) in (rw all.0, omega (arith, all.1))
