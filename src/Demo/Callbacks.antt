-- ===== src/Demo/Callbacks.antt =====
-- The methods of Handler (demo/handler.h) that the agent calls.
use content_analysis_sdk.Prelude.{
  ℕ, Option, none, some, [], ◌∷◌, Text, codes, decimal, get_or_default, ◌≡◌, arith,
}
use content_analysis_sdk.ResultCode.{result_code_to_string}
use content_analysis_sdk.Proto.{Protobuf}
use content_analysis_sdk.Windows.{Windows}
use content_analysis_sdk.Event.{Event}
use content_analysis_sdk.Host.{
  Callback, browser_connected, browser_disconnected, analysis_requested, response_acknowledged,
  cancel_requests, internal_error,
}
use content_analysis_sdk.Demo.Output.{endl, streamed, on_response_acknowledged}
use content_analysis_sdk.Demo.Analysis.{Machine, Settings, Analysis, analyze_event}

module _ (machine : Machine) (os : Windows) (pb : Protobuf) (settings : Settings) where
  open os use {World}

  -- OnAnalysisRequested, at the time `now`, of which `ctime` gives `received`.
  pub on_analysis_requested : ℕ → Text → Event → World → Option (Text × World)
  on_analysis_requested now received e w =
      elim (analyze_event machine os pb settings now received e w) [
        | none ↦ none
        | some r ↦
            some (streamed (endl ∷ codes "----------" ∷ endl ∷ endl ∷ r.output ∷ []), r.world)
      ]

  -- What a method prints, and the state that it leaves; none where it reads through a null pointer.
  -- Only OnAnalysisRequested does more than print.
  unfoldable pub handle_callback : ℕ → Text → Callback → World → Option (Text × World)
  unfolding on_analysis_requested
  handle_callback now received (browser_connected info) w = some (
    streamed (
        endl
        ∷ codes "=========="
        ∷ endl
        ∷ codes "Browser connected pid="
        ∷ decimal info.pid
        ∷ codes " path="
        ∷ info.binary_path
        ∷ endl
        ∷ []),
    w,
  )
  handle_callback now received (browser_disconnected info) w = some (
    streamed (
        endl
        ∷ codes "Browser disconnected pid="
        ∷ decimal info.pid
        ∷ endl
        ∷ codes "=========="
        ∷ endl
        ∷ []),
    w,
  )
  handle_callback now received (analysis_requested e) w = on_analysis_requested now received e w
  handle_callback now received (response_acknowledged ack) w =
      some (on_response_acknowledged ack, w)
  handle_callback now received (cancel_requests cancel) w = some (
    streamed (
        codes "Cancel: "
        ∷ endl
        ∷ codes "  User action ID: "
        ∷ get_or_default cancel.user_action_id []
        ∷ endl
        ∷ []),
    w,
  )
  handle_callback now received (internal_error context rc) w = some (
    streamed (
        endl
        ∷ codes "*ERROR*: context=\""
        ∷ context
        ∷ codes "\" "
        ∷ result_code_to_string rc
        ∷ endl
        ∷ []),
    w,
  )

  pub handle_callback_analyzed :
      (now : ℕ) (received : Text) (e : Event) (w : World) (r : Analysis World)
      → analyze_event machine os pb settings now received e w ≡ some r
      → (text : Text) × (handle_callback now received (analysis_requested e) w
          ≡ some (text, r.world))
  unfolding handle_callback on_analysis_requested
  handle_callback_analyzed now received e w r runs =
      (streamed (endl ∷ codes "----------" ∷ endl ∷ endl ∷ r.output ∷ []), ground (arith, runs))
