-- ===== src/Tests/Threads.antt =====
-- Runs of the background threads and of the request tokens.
use mathlib.Core.List.{Perm}
use content_analysis_sdk.Prelude.{
  ℕ, ◌≤◌, ◌*◌, ◌≡◌, refl, true, false, none, some, List, [], ◌∷◌, ◌⊎◌, codes, get_elem?, Text,
  decimal,
}
use content_analysis_sdk.Prelude.{Option, zero, suc}
use content_analysis_sdk.Proto.{
  ContentAnalysisResponse, ContentAnalysisRequest, AnalysisConnector, file_path,
}
use content_analysis_sdk.Demo.RequestQueue.{push, pop}
use content_analysis_sdk.Demo.Workers.{
  Pool, Step, requested, takes, ends, analyses, Reach, start, later, popping, analysing, finished,
}
use content_analysis_sdk.Demo.Workers.Conservation.{Reach-everywhere}
use content_analysis_sdk.Demo.Workers.Ending.{is_turn, here, turn, Turns-finish}
use content_analysis_sdk.Demo.Grouping.{Globals, start as ungrouped, handle_all, handle_response}
use content_analysis_sdk.Demo.Grouping.Threads.{
  Thread, Session, sends, records, Reach as Handles, here as asking, next,
}
use content_analysis_sdk.Demo.Grouping.Threads.Order.{Reach-order_free}
use content_analysis_sdk.Tests.Demos.{warning}
use content_analysis_sdk.Tests.Fake.{request}
use content_analysis_sdk.Demo.CommandLine.{client_defaults}
use content_analysis_sdk.Demo.Requests.{
  generate_request_token, build_request, file_of, after_last, content_of,
}
use content_analysis_sdk.Demo.Requests.Tokens.{build_requests, build_requests_unique}

-- Two threads; two requests, of which the first is analysed and the second is being analysed by the
-- other thread, and a third one that is queued.
abbrev busy : Pool ℕ
busy = record {
  queue = record { events = 3 ∷ []; aborted = false };
  workers = popping ∷ analysing 2 ∷ [];
  queued = 1 ∷ 2 ∷ 3 ∷ [];
  analysed = 1 ∷ [];
}

busy-Reach : Reach 2 busy
unfolding push pop
busy-Reach =
    later
      (later
        (later (later (later (later start (requested 1)) (requested 2)) (takes 0 1 _ refl refl))
          (takes 1 2 _ refl refl))
        (analyses 0 1 refl))
      (requested 3)

Reach-everywhere_example : Perm {A = ℕ} (1 ∷ 2 ∷ 3 ∷ []) (1 ∷ 2 ∷ 3 ∷ [])
Reach-everywhere_example = Reach-everywhere busy-Reach

-- The same threads after the abort, and after two of their steps.
abbrev aborted : Pool ℕ
aborted = record busy { queue = record { events = 3 ∷ []; aborted = true } }

abbrev afterwards : Pool ℕ
afterwards = record aborted { workers = finished ∷ popping ∷ []; analysed = 1 ∷ 2 ∷ [] }

Turns-finish_example :
    (2 ≤ 2 * 2) × ((false ≡ true) ⊎ ((u : Pool ℕ) × (st : Step afterwards u) × (is_turn st ≡ true)))
unfolding is_turn pop
Turns-finish_example =
    Turns-finish {s = aborted} refl
      (turn (turn here (analyses 1 2 refl) refl) (ends 0 aborted.queue refl refl) refl)

abbrev arguments : List (ℕ × Text)
arguments = (100, codes "one") ∷ (101, codes "@two") ∷ []

abbrev second : ContentAnalysisRequest
second = record {
  request_token = some (codes "req-6");
  analysis_connector = some AnalysisConnector.file_attached;
  request_data = some (record {
    url = some client_defaults.url;
    filename = some (codes "two");
    digest = some client_defaults.digest;
    email = some client_defaults.email;
    tab_title = none;
    print_metadata = none;
  });
  tags = codes "dlp" ∷ [];
  machine_user = some (some (some client_defaults.machine_user));
  content_data = some (file_path (codes "two"));
  expires_at = some 401;
  user_action_id = none;
  reason = none;
}

second_built : get_elem? (build_requests client_defaults 5 arguments) 1 ≡ some second
unfolding build_requests build_request generate_request_token file_of after_last content_of decimal
second_built = refl

build_requests_unique_example : ◌≡◌ {A = ℕ} 1 1
build_requests_unique_example =
    build_requests_unique client_defaults 5 arguments 1 1 second second refl second_built
      second_built refl

-- Two threads with one request each: the second one records its answer first.
abbrev other : ContentAnalysisRequest
other = record request { request_token = some (9 ∷ []) }

abbrev one_recorded : Globals
one_recorded = (handle_response true other (some warning) ungrouped).0

abbrev grouped : Session
grouped = record {
  globals = (handle_response true request none one_recorded).0;
  threads = Thread.finished (request, none) ∷ Thread.finished (other, some warning) ∷ [];
  recorded = (other, some warning) ∷ (request, none) ∷ [];
}

-- What Send gives the two threads.
abbrev sent : ℕ → Option ContentAnalysisResponse
sent zero = none
sent (suc i) = some warning

grouped-Handles : Handles sent (request ∷ other ∷ []) grouped
grouped-Handles =
    next
      (next (next (next asking (sends 0 request refl)) (sends 1 other refl))
        (records 1 other (some warning) refl))
      (records 0 request none refl)

Reach-order_free_example :
    let sequential = handle_all true ((request, none) ∷ (other, some warning) ∷ []) ungrouped in
    (grouped.globals.final_action ≡ sequential.final_action)
    × Perm grouped.globals.request_tokens sequential.request_tokens
Reach-order_free_example = Reach-order_free grouped-Handles refl
