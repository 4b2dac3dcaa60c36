-- ===== src/Demo/Session.antt =====
-- main of demo/client.cc behind the command line: HandleRequest and ProcessRequest with the calls of
-- the library and with the output, the loop over the contents without --threaded, and the
-- acknowledgements of a group.
pub mod Grouped
use content_analysis_sdk.Prelude.{
  ℕ, Bool, true, false, Option, none, some, List, [], ◌∷◌, ◌++◌, Text, codes, get_or_default,
  is_empty, if◌then◌else◌,
}
use content_analysis_sdk.Proto.{
  ContentAnalysisRequest, ContentAnalysisResponse, ContentAnalysisAcknowledgement, Protobuf,
}
use content_analysis_sdk.Windows.{Windows}
use content_analysis_sdk.Client.{Client, returned, send, acknowledge}
use content_analysis_sdk.Client
use content_analysis_sdk.Demo.Grouping.{Globals, start, handle_response, group_acks}
use content_analysis_sdk.Demo.CommandLine.{ClientOptions}
use content_analysis_sdk.Demo.Requests.{build_request}
use content_analysis_sdk.Demo.Output.{endl, streamed, dump_response, final_action_name}

-- The globals that a run changes, what it printed, and the state of the operating system.
pub record Run (World : Type 0) : Type 0 where
  pub globals : Globals
  pub request_token_number : ℕ
  pub output : Text
  pub world : World

-- How a part of main ends: it goes on, it ends the program, the library lets an exception through,
-- or the rounds of a call of the library run out.
pub data Ended (World : Type 0) : Type 0 where
  continues exits : Run World → Ended World
  thrown running : Ended World

abbrev pub printed : {World : Type 0} → List Text → Run World → Run World
printed parts s = record s { output = s.output ++ streamed parts }

abbrev pub then_run : {World : Type 0} → (Run World → Ended World) → Ended World → Ended World
then_run next (continues s) = next s
then_run next (exits s) = exits s
then_run next thrown = thrown
then_run next running = running

module _ (os : Windows) (pb : Protobuf) (c : Client) (rounds : ℕ) (o : ClientOptions) where
  -- What `time(nullptr)` gives, and the text of `ctime` for it.
  module _ (time : os.World → ℕ) (ctime : ℕ → Text) where
    -- Acknowledge, and the line where it fails.
    unfoldable pub acknowledge_reported :
        Text → Text → ContentAnalysisAcknowledgement → Run os.World → Run os.World
    acknowledge_reported label token ack s =
        let (success, w) = acknowledge os pb c ack s.world in
        let s₁ = record s { world = w } in
        if success then s₁ else printed (label ∷ token ∷ endl ∷ []) s₁

    -- HandleRequest behind the call of Send.
    unfoldable pub finish_request :
        ContentAnalysisRequest → Option ContentAnalysisResponse → Run os.World → Run os.World
    unfolding acknowledge_reported
    finish_request request none s =
        printed
          (codes "[Demo] Error sending request "
            ∷ get_or_default request.request_token []
            ∷ endl
            ∷ [])
          s
    finish_request request (some response) s =
        let token = get_or_default request.request_token [] in
        let (g, ack) = handle_response o.group request (some response) s.globals in
        let s₁ = record (printed (dump_response (ctime (time s.world)) response ∷ []) s) {
          globals = g;
        } in
        if is_empty response.results
        then printed (codes "[Demo] Response " ∷ token ∷ codes " is missing a result" ∷ endl ∷ []) s
        else elim ack [
          | none ↦ s₁
          | some a ↦ acknowledge_reported (codes "[Demo] Error sending ack ") token a s₁
        ]

    unfoldable pub handle_request : ContentAnalysisRequest → Run os.World → Ended os.World
    unfolding finish_request
    handle_request request s = elim (send os pb rounds c request s.world) [
      | returned (response, w) ↦
          continues (finish_request request response (record s { world = w }))
      | Client.thrown ↦ thrown
      | Client.running ↦ running
    ]

    pub process_request : Text → Run os.World → Ended os.World
    unfolding handle_request
    process_request data' s = elim (build_request o (time s.world) s.request_token_number data') [
      | none ↦ exits (printed (codes "[Demo] Specify text content or a file path." ∷ endl ∷ []) s)
      | some (request, next) ↦ handle_request request (
          printed
            (codes "[Demo] Sending request " ∷ get_or_default request.request_token [] ∷ endl ∷ [])
            (record s { request_token_number = next }))
    ]

    -- The loop over `datas`.
    pub process_all : List Text → Run os.World → Ended os.World
    process_all [] s = continues s
    process_all (data' ∷ datas) s = then_run (process_all datas) (process_request data' s)

    -- The loop over `request_tokens` at the end.
    pub acknowledge_all : List ContentAnalysisAcknowledgement → Run os.World → Run os.World
    acknowledge_all [] s = s
    acknowledge_all (ack ∷ acks) s =
        let s₁ = printed (codes "[Demo] Sending group Ack" ∷ endl ∷ []) s in
        acknowledge_all acks (
          acknowledge_reported (codes "[Demo] Error sending ack for ")
            (get_or_default ack.request_token []) ack s₁)

    pub acknowledge_group : Run os.World → Run os.World
    unfolding acknowledge_all
    acknowledge_group s =
        let final =
          codes "[Demo] Final action for all requests is "
          ∷ final_action_name s.globals.final_action
          ∷ endl
          ∷ endl
          ∷ [] in
        if o.group then acknowledge_all (group_acks s.globals) (printed (endl ∷ final) s) else s

    -- main from the loop on, without --threaded; the program started at the time `started`.
    pub run_session : ℕ → os.World → Ended os.World
    unfolding process_all acknowledge_group
    run_session started w =
        then_run (λ s. continues (acknowledge_group s))
          (process_all o.datas
            (record { globals = start; request_token_number = started; output = []; world = w }))
