-- ===== src/Demo/Analysis.antt =====
-- Handler::AnalyzeContent of demo/handler.h as a whole: the description of the request, the verdict,
-- the delay and the response, with what is printed.
use content_analysis_sdk.Prelude.{
  ℕ, Option, none, some, [], ◌∷◌, ◌++◌, Text, codes, decimal, get_or_default, ltb, if◌then◌else◌,
  ◌≡◌, refl, arith,
}
use content_analysis_sdk.ResultCode.{ResultCode, ok, code_eq, result_code_to_string}
use content_analysis_sdk.Proto.{ContentAnalysisRequest, Protobuf}
use content_analysis_sdk.Windows.{Windows}
use content_analysis_sdk.Event.{
  Event, write_message_to_pipe, set_event_verdict_to_block, send, shutdown,
}
use content_analysis_sdk.Event.Debug.{debug_string}
use content_analysis_sdk.Demo.Handler.{
  Verdict, failed, blocked, allowed, judge, apply_verdict, answer, response_for,
}
use content_analysis_sdk.Demo.Output.{endl, streamed}
use content_analysis_sdk.Demo.Delay.{delay_of}
use content_analysis_sdk.Demo.Dump.{dump_event}

-- What the program relies on of the C library and of the machine: `ctime`, `sscanf` on a number out
-- of range, the text of a handle, the files that can be opened.
pub record Machine : Type 0 where
  pub ctime : ℕ → Option Text
  pub out_of_range : Text → ℕ
  pub show_handle : ℕ → Text
  pub files : Text → Option Text

-- The members of Handler.
pub record Settings : Type 0 where
  pub delay : ℕ
  pub save_path : Text

-- What AnalyzeContent leaves: its output, the document that it saved, the seconds that it waited
-- before it sent the response, and the state.
pub record Analysis (World : Type 0) : Type 0 where
  pub output : Text
  pub saved : Option Text
  pub waited : ℕ
  pub world : World

module _ (machine : Machine) where
  open machine use {show_handle, out_of_range, files}

  -- The lines for a code that is not OK.
  abbrev pub error_lines : Text → ResultCode → Text → Text → Text
  error_lines label rc indent debug =
      if code_eq rc ok
      then []
      else streamed (label ∷ result_code_to_string rc ∷ endl ∷ indent ∷ debug ∷ endl ∷ [])

  -- `e` is the event before the verdict is written into it.
  pub verdict_lines : Verdict → Event → Text
  verdict_lines failed e = streamed (
      codes "  Verdict: failed to reach verdict: "
      ∷ debug_string show_handle (apply_verdict failed e)
      ∷ endl
      ∷ [])
  verdict_lines blocked e =
      let (rc, e₁) = set_event_verdict_to_block e in
      streamed (
        codes "  Verdict: block"
        ∷ error_lines (codes " error: ") rc (codes "  ") (debug_string show_handle e₁)
        ∷ endl
        ∷ [])
  verdict_lines allowed e = codes "  Verdict: allow" ++ endl

  pub delay_lines : ℕ → ContentAnalysisRequest → Text
  delay_lines delay request =
      if ltb 0 delay
      then streamed (
          codes "Delaying response to "
          ∷ get_or_default request.request_token []
          ∷ codes " for "
          ∷ decimal delay
          ∷ codes "s"
          ∷ endl
          ∷ endl
          ∷ [])
      else []

  module _ (os : Windows) (pb : Protobuf) (settings : Settings) where
    -- AnalyzeContent behind DumpEvent, with what that printed and saved, and with the verdict.
    pub respond : Text → Option Text → Verdict → Event → os.World → Analysis os.World
    unfolding verdict_lines delay_lines
    respond text saved verdict e w =
        let delay = delay_of out_of_range files settings.delay e.request in
        let (rc, e₁, w₁) = send os pb (apply_verdict verdict e) w in
        record {
          output = streamed (
              text
              ∷ verdict_lines verdict e
              ∷ endl
              ∷ delay_lines delay e.request
              ∷ error_lines (codes "[Demo] Error sending response: ") rc []
                  (debug_string show_handle e₁)
              ∷ []);
          saved = saved;
          waited = delay;
          world = (shutdown os pb e₁ w₁).1;
        }

    -- AnalyzeContent at the time `now`, of which `ctime` gives `received`; none where the program
    -- ends in DumpEvent or by an exception of ReadContentFromFile.
    pub analyze_event : ℕ → Text → Event → os.World → Option (Analysis os.World)
    unfolding respond
    analyze_event now received e w =
        elim (dump_event os machine.ctime now received settings.save_path e w) [
          | none ↦ none
          | some (text, saved, w₁) ↦ elim (judge files e.request) [
            | none ↦ none
            | some verdict ↦ some (respond text saved verdict e w₁)
          ]
        ]

    respond_answers :
        (text : Text) (saved : Option Text) (verdict : Verdict) (e : Event) (w : os.World)
        → (respond text saved verdict e w).world ≡ answer os pb verdict e w
    unfolding respond answer
    respond_answers text saved verdict e w = refl

    -- Where DumpEvent runs to its end and there is a verdict, AnalyzeContent runs to its end: what it
    -- saves is what DumpEvent saved, it waits as long as the content or else the command line says, and
    -- it leaves the state that the response and the end of the event leave after DumpEvent.
    pub analyze_event_dumped :
        (now : ℕ) (received : Text) (e : Event) (w w₁ : os.World) (text : Text)
        (saved : Option Text) (verdict : Verdict)
        → dump_event os machine.ctime now received settings.save_path e w ≡ some (text, saved, w₁)
        → judge files e.request ≡ some verdict
        → (r : Analysis os.World) × (analyze_event now received e w ≡ some r)
          × (r.saved ≡ saved)
          × (r.waited ≡ delay_of out_of_range files settings.delay e.request)
          × (r.world ≡ answer os pb verdict e w₁)
    unfolding analyze_event respond
    analyze_event_dumped now received e w w₁ text saved verdict dumped judged = (
      respond text saved verdict e w₁,
      ground (arith, dumped, judged),
      refl,
      refl,
      respond_answers text saved verdict e w₁,
    )

    -- What AnalyzeContent does beside printing.
    abbrev pub effects : Option (Analysis os.World) → Option (Option Text × ℕ × os.World)
    effects none = none
    effects (some r) = some (r.saved, r.waited, r.world)

    -- What AnalyzeContent does to an event that Init made of a request `req` and that has this pipe.
    abbrev pub expected :
        ℕ
        → ContentAnalysisRequest
        → Option (Text × Option Text × os.World)
        → Option Verdict
        → Option (Option Text × ℕ × os.World)
    expected pipe req none verdict = none
    expected pipe req (some dumped) none = none
    expected pipe req (some (text, saved, w)) (some verdict) =
        let message =
          pb.serialize_agent_to_chrome (record { response = some (response_for verdict req) }) in
        some (
          saved,
          delay_of out_of_range files settings.delay req,
          os.flush_file_buffers pipe (write_message_to_pipe os pipe message w).1,
        )
