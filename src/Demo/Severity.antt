-- ===== src/Demo/Severity.antt =====
-- GetActionFromResult and GetActionFromResponse of demo/client.cc, and the final action that
-- HandleRequest chooses.
use content_analysis_sdk.Prelude.{
  ℕ, ◌+◌, ◌&&◌, List, [], ◌∷◌, ◌++◌, ◌≡◌, arith, ltb, if◌then◌else◌, get_or_default, is_some,
}
use Prim.Native.Nat.{max}
use content_analysis_sdk.Proto.{
  Action, TriggeredRule, AnalysisResult, ContentAnalysisResponse, FinalAction,
}

-- The numbers of the enumerations in analysis.proto.
abbrev pub action_number : Action → ℕ
action_number Action.action_unspecified = 0
action_number Action.report_only = 1
action_number Action.warn = 2
action_number Action.block = 3

abbrev pub final_action_number : FinalAction → ℕ
final_action_number FinalAction.action_unspecified = 0
final_action_number FinalAction.allow = 1
final_action_number FinalAction.report_only = 2
final_action_number FinalAction.warn = 3
final_action_number FinalAction.block = 4

rule_step : Action → TriggeredRule → Action
rule_step action rule =
    let own = get_or_default rule.action Action.action_unspecified in
    if is_some rule.action && ltb (action_number action) (action_number own) then own else action

action_of_rules : Action → List TriggeredRule → Action
action_of_rules action [] = action
action_of_rules action (rule ∷ rules) = action_of_rules (rule_step action rule) rules

pub get_action_from_result : AnalysisResult → Action
unfolding action_of_rules rule_step
get_action_from_result result = action_of_rules Action.action_unspecified result.triggered_rules

action_of_results : Action → List AnalysisResult → Action
action_of_results action [] = action
action_of_results action (result ∷ results) =
    let action2 = get_action_from_result result in
    action_of_results
      (if ltb (action_number action) (action_number action2) then action2 else action) results

pub get_action_from_response : ContentAnalysisResponse → Action
unfolding action_of_results get_action_from_result
get_action_from_response response = action_of_results Action.action_unspecified response.results

-- The switch of HandleRequest.
abbrev pub final_action_of : Action → FinalAction
final_action_of Action.action_unspecified = FinalAction.allow
final_action_of Action.report_only = FinalAction.report_only
final_action_of Action.warn = FinalAction.warn
final_action_of Action.block = FinalAction.block

final_action_of_number :
    (action : Action) → final_action_number (final_action_of action) ≡ 1 + action_number action
final_action_of_number action = ground arith

-- The largest number of an action among the rules of a response, 0 where there is none.
abbrev pub max_of : List TriggeredRule → ℕ
max_of [] = 0
max_of (rule ∷ rules) =
    max (action_number (get_or_default rule.action Action.action_unspecified)) (max_of rules)

abbrev pub all_rules : List AnalysisResult → List TriggeredRule
all_rules [] = []
all_rules (result ∷ results) = result.triggered_rules ++ all_rules results

max_of-append : (xs ys : List TriggeredRule) → max_of (xs ++ ys) ≡ max (max_of xs) (max_of ys)
max_of-append [] ys = omega arith
max_of-append (x ∷ xs) ys = omega (arith, max_of-append xs ys)

rule_step-max :
    (action : Action) (rule : TriggeredRule)
    → action_number (rule_step action rule)
      ≡ max
          (action_number action)
          (action_number (get_or_default rule.action Action.action_unspecified))
unfolding rule_step
rule_step-max action rule = ground arith

action_of_rules-max :
    (action : Action) (rules : List TriggeredRule)
    → action_number (action_of_rules action rules) ≡ max (action_number action) (max_of rules)
unfolding action_of_rules
action_of_rules-max action [] = omega arith
action_of_rules-max action (rule ∷ rules) =
    omega (arith, rule_step-max action rule, action_of_rules-max (rule_step action rule) rules)

action_of_results-max :
    (action : Action) (results : List AnalysisResult)
    → action_number (action_of_results action results)
      ≡ max (action_number action) (max_of (all_rules results))
unfolding action_of_results get_action_from_result
action_of_results-max action [] = omega arith
action_of_results-max action (result ∷ results) =
    let own = get_action_from_result result in
    let next = if ltb (action_number action) (action_number own) then own else action in
    ground (
      arith,
      action_of_rules-max Action.action_unspecified result.triggered_rules,
      max_of-append result.triggered_rules (all_rules results),
      action_of_results-max next results,
    )

-- GetActionFromResponse returns the most severe action of all rules of all results, and
-- ACTION_UNSPECIFIED where no rule has an action; and the final action that HandleRequest chooses
-- for it is one above it in the numbering, ALLOW for ACTION_UNSPECIFIED.
pub get_action_from_response_max :
    (response : ContentAnalysisResponse)
    → let action = get_action_from_response response in
      (action_number action ≡ max_of (all_rules response.results))
      × (final_action_number (final_action_of action) ≡ 1 + max_of (all_rules response.results))
unfolding get_action_from_response
get_action_from_response_max response =
    let action = get_action_from_response response in
    ground (
      arith,
      action_of_results-max Action.action_unspecified response.results,
      final_action_of_number action,
    )
