-- ===== src/Tests/Demos.antt =====
-- Runs of the demonstration agent and client.
use content_analysis_sdk.Prelude.{
  ℕ, ◌++◌, ◌≡◌, refl, true, false, Option, none, some, List, [], ◌∷◌, Text, codes, contains,
  starts_with, stoul, scan_number, ◌↔◌,
}
use content_analysis_sdk.Proto.{Action, ContentAnalysisResponse, Status}
use content_analysis_sdk.Demo.RequestQueue.{RequestQueue, Op, pushes, pops, aborts, run, run-fifo}
use content_analysis_sdk.Demo.Handler.{judge, blocked, judge-text}
use content_analysis_sdk.Demo.Severity.{final_action_number}
use content_analysis_sdk.Demo.Grouping.{
  Exchange, start, handle_all, build_acknowledgement, group_acks, group_acks_lem,
}
use content_analysis_sdk.Demo.CommandLine.{
  accepted, agent_defaults, client_defaults, parse_agent, parse_client, agent_option,
}
use content_analysis_sdk.Demo.CommandLine.SamePipe.{
  pipe_of_agent, pipe_of_client, parse_client-parse_agent,
}
use content_analysis_sdk.Tests.Fake.{request}

abbrev two_queued : RequestQueue ℕ
two_queued = record { events = 1 ∷ 2 ∷ []; aborted = false }

abbrev script : List (Op ℕ)
script = pops ∷ pushes 3 ∷ pops ∷ aborts ∷ pops ∷ []

run-script : run two_queued script ≡ (1 ∷ 2 ∷ [], record { events = 3 ∷ []; aborted = true })
unfolding run
run-script = refl

run-fifo_example : (run two_queued script).0 ++ (run two_queued script).1.events ≡ 1 ∷ 2 ∷ 3 ∷ []
run-fifo_example = run-fifo script two_queued

abbrev pub no_files : Text → Option Text
no_files path = none

pub judged : judge no_files request ≡ some blocked
unfolding judge contains starts_with
judged = refl

judge-text_example :
    (judge no_files request ≡ some blocked)
    ↔ ((a : Text) × (b : Text) × (codes "ablock." ≡ a ++ (codes "block" ++ b)))
judge-text_example = judge-text no_files request (codes "ablock.") refl

abbrev pub warning : ContentAnalysisResponse
warning = record {
  request_token = some (1 ∷ []);
  results =
      record {
        tag = none;
        status = some Status.success;
        triggered_rules =
            record { action = some Action.report_only } ∷ record { action = some Action.warn } ∷ [];
      }
      ∷ [];
}

abbrev exchanges : List Exchange
exchanges = (request, some warning) ∷ (request, none) ∷ []

group_acks_lem_example :
    (group_acks (handle_all true exchanges start)
      ≡ build_acknowledgement (1 ∷ 2 ∷ []) (handle_all true exchanges start).final_action ∷ [])
    × (final_action_number (handle_all true exchanges start).final_action ≡ 3)
group_acks_lem_example = group_acks_lem exchanges

parse_client-parse_agent_example :
    pipe_of_agent (parse_agent (codes "--user" ∷ codes "--path=p" ∷ []) agent_defaults)
    ≡ pipe_of_client (parse_client (codes "--user" ∷ codes "--path=p" ∷ []) client_defaults)
unfolding starts_with
parse_client-parse_agent_example =
    parse_client-parse_agent (codes "--user" ∷ codes "--path=p" ∷ []) refl

delay-bounded :
    parse_agent (codes "--delay=45" ∷ []) agent_defaults
    ≡ accepted (record agent_defaults { delay = 30 })
unfolding parse_agent agent_option stoul scan_number starts_with
delay-bounded = refl
