-- ===== src/Demo/Handler.antt =====
-- The parts of Handler::AnalyzeContent of demo/handler.h that reach the verdict and send it, with what
-- they call. AnalyzeContent as a whole, with DumpEvent, the delay and the output, is in Demo.Analysis.
use content_analysis_sdk.Prelude.{
  ℕ, ◌*◌, ◌%◌, ◌^◌, take, Bool, true, false, Option, none, some, [], ◌∷◌, ◌++◌, Text, ltb, length,
  codes, contains, contains_iff, ◌↔◌, if◌then◌else◌, get_or_default, ◌≡◌, arith, ◌==◌, is_empty,
}
use content_analysis_sdk.Proto.{
  ContentAnalysisRequest, ContentAnalysisResponse, text_content, file_path, print_data, Status,
  Protobuf, response_of, Action, AnalysisResult,
}
use content_analysis_sdk.Windows.{Windows, invalid_handle_value}
use content_analysis_sdk.Event.{
  BrowserInfo, Event, create, init, update_response, set_event_verdict_to_block, send, shutdown,
  write_message_to_pipe,
}
use content_analysis_sdk.Event.Response.{token_of, allow_result, init-create}

-- ReadContentFromFile, with the bytes of a file that can be opened: whether there is a content, or
-- none where an exception is let through. The size is an `int`, the low 32 bits of what `tellg` gives.
-- A negative one is not above 1 MB, and `resize` or `at` throws for it; of a file whose size is not
-- negative and at most 1 MB so many bytes are read, followed by a NUL.
unfoldable pub read_content_from_file : Option Text → Option (Option Text)
read_content_from_file none = some none
read_content_from_file (some bytes) =
    let size = length bytes % 2 ^ 32 in
    if ltb size (2 ^ 31)
    then if ltb (1024 * 1024) size then some none else some (some (take size bytes ++ (0 ∷ [])))
    else none

pub should_block_request : Text → Bool
should_block_request content = contains content (codes "block")

pub data Verdict : Type 0 where
  failed blocked allowed : Verdict

of_block : Bool → Verdict
of_block true = blocked
of_block false = allowed

-- The verdict on a request, or none where an exception is let through. `files` are the files that the
-- agent can open.
unfoldable pub judge : (Text → Option Text) → ContentAnalysisRequest → Option Verdict
unfolding of_block should_block_request read_content_from_file
judge files request = elim request.content_data [
  | none ↦ some allowed
  | some (text_content text) ↦ some (of_block (should_block_request text))
  | some (file_path path) ↦ elim (read_content_from_file (files path)) [
    | none ↦ none
    | some none ↦ some failed
    | some (some content) ↦ some (of_block (should_block_request content))
  ]
  | some (print_data data') ↦ some (
      of_block (
        should_block_request
          (elim request.request_data [ none ↦ [] | some meta ↦ get_or_default meta.url [] ])))
]

-- What AnalyzeContent writes into the response.
pub apply_verdict : Verdict → Event → Event
apply_verdict failed e =
    let response = update_response (response_of e.agent_to_chrome) [] Status.failure in
    record e { agent_to_chrome = record { response = some response } }
apply_verdict blocked e = (set_event_verdict_to_block e).1
apply_verdict allowed e = e

module _ (os : Windows) (pb : Protobuf) where
  open os use {World}

  -- The end of AnalyzeContent, which owns the event: the verdict is written into the response, the
  -- response is sent, and the event is destroyed.
  unfoldable pub answer : Verdict → Event → World → World
  answer verdict e w =
      let (rc, e₁, w₁) = send os pb (apply_verdict verdict e) w in (shutdown os pb e₁ w₁).1

-- The one result of the response to a request with that verdict.
abbrev pub result_for : Verdict → ContentAnalysisRequest → AnalysisResult
result_for failed req = record (allow_result req) { status = some Status.failure }
result_for blocked req = record (allow_result req) {
  triggered_rules = record { action = some Action.block } ∷ [];
}
result_for allowed req = allow_result req

verdict_result :
    (v : Verdict) (pipe : ℕ) (info : BrowserInfo) (req : ContentAnalysisRequest)
    → is_empty (token_of req) ≡ false
    → apply_verdict v (init (create pipe info req)).1 ≡ record (create pipe info req) {
      agent_to_chrome = record {
        response =
            some (record { request_token = some (token_of req); results = result_for v req ∷ [] });
      };
    }
unfolding apply_verdict update_response set_event_verdict_to_block create
verdict_result failed pipe info req named = ground (arith, init-create pipe info req)
verdict_result blocked pipe info req named = ground (arith, init-create pipe info req)
verdict_result allowed pipe info req named = ground (arith, init-create pipe info req)

pub init_request :
    (pipe : ℕ) (info : BrowserInfo) (req : ContentAnalysisRequest)
    → (init (create pipe info req)).1.request ≡ req
unfolding create
init_request pipe info req = ground (arith, init-create pipe info req)

-- The response to a request with that verdict: its token, and one result.
abbrev pub response_for : Verdict → ContentAnalysisRequest → ContentAnalysisResponse
response_for v request = record {
  request_token = some (token_of request);
  results = result_for v request ∷ [];
}

module _ (os : Windows) (pb : Protobuf) where
  open os use {World, flush_file_buffers}
  open pb use {serialize_agent_to_chrome}

  -- On an event that Init accepted and that has a valid pipe, one message is written and flushed.
  pub answer_sends :
      (v : Verdict) (pipe : ℕ) (info : BrowserInfo) (req : ContentAnalysisRequest) (w : World)
      → is_empty (token_of req) ≡ false
      → (pipe == invalid_handle_value) ≡ false
      → answer os pb v (init (create pipe info req)).1 w
        ≡ flush_file_buffers pipe
            (write_message_to_pipe os pipe
              (serialize_agent_to_chrome (record { response = some (response_for v req) }))
              w).1
  unfolding answer send shutdown create
  answer_sends v pipe info req w named valid = ground (arith, verdict_result v pipe info req named)

text_judged :
    (files : Text → Option Text) (req : ContentAnalysisRequest) (text : Text)
    → req.content_data ≡ some (text_content text)
    → judge files req ≡ some (of_block (contains text (codes "block")))
unfolding judge
text_judged files req text e = ground arith

-- The verdict on a request with a text is to block exactly if "block" stands somewhere in the text.
pub judge-text :
    (files : Text → Option Text) (req : ContentAnalysisRequest) (text : Text)
    → req.content_data ≡ some (text_content text)
    → (judge files req ≡ some blocked)
      ↔ ((a : Text) × (b : Text) × (text ≡ a ++ (codes "block" ++ b)))
unfolding of_block
judge-text files req text e =
    let word = codes "block" in
    let judged = text_judged files req text e in
    (
      λ h. (contains_iff text word).0 (ground (arith, judged)),
      λ f. ground (arith, judged, (contains_iff text word).1 f),
    )
