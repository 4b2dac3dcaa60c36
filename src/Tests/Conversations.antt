-- ===== src/Tests/Conversations.antt =====
-- Runs of a browser and the agent together.
use content_analysis_sdk.Prelude.{
  ◌≡◌, refl, true, none, some, List, [], Text, ◌∷◌, ◌++◌, arith, codes, Option, length, inl, inr,
  ◌≤◌,
}
use content_analysis_sdk.ResultCode.{ok}
use content_analysis_sdk.Proto.{ChromeToAgent, Protobuf, empty_chrome_to_agent}
use content_analysis_sdk.Event.{create, init, write_message_to_pipe}
use content_analysis_sdk.Host.{Host, State, Callback, call, cancel_requests, analysis_requested}
use content_analysis_sdk.Connection.{receive, at}
use content_analysis_sdk.Connection.Reading.{handle_event, continue}
use content_analysis_sdk.Conversation.Requests.{handle_event_understands}
use content_analysis_sdk.Demo.Callbacks.{handle_callback}
use content_analysis_sdk.Conversation.Service.{HasDemoHandler}
use content_analysis_sdk.Conversation.Serving.{handle_event_serves}
use content_analysis_sdk.Connection.Reassembly.Message.{joined, feed}
use content_analysis_sdk.Connection.Reassembly.Rounds.{ReadsMessages}
use content_analysis_sdk.Tests.Messages.{messages, Left, Waits, completed}
use content_analysis_sdk.Demo.Analysis.{Machine, Settings}
use content_analysis_sdk.Demo.Handler.{blocked}
use content_analysis_sdk.Tests.Demos.{judged}
use content_analysis_sdk.Tests.Fake.{fake, idle, host, reader, request, World, reader-Holds}

-- The cancellation that the messages of the tests are serialised to.
abbrev cancellation : ChromeToAgent
cancellation = record empty_chrome_to_agent {
  cancel = some (record { user_action_id = some (1 ∷ []) });
}

abbrev one_byte : World
one_byte = record idle { reads = record { success = true; bytes = 1 ∷ []; error = 0 } ∷ [] }

abbrev incoming : State host
incoming = record { world = one_byte; calls = [] }

abbrev cancelled : Callback
cancelled = cancel_requests (record { user_action_id = some (1 ∷ []) })

handle_event_understands_example :
    (◌≡◌ {A = List Callback} [] [])
    × (handle_event host reader.event reader incoming
        ≡ continue host (
          ok,
          record (receive (1 ∷ []) reader) { final_size = 1 },
          call host cancelled (at host (fake.read_result reader.event one_byte).2 incoming),
        ))
handle_event_understands_example =
    handle_event_understands host cancellation cancelled [] (1 ∷ []) reader incoming refl refl
      reader-Holds tt (refl, refl, omega arith) (omega arith) refl

-- A host that receives requests and has the demo's handler.
abbrev requesting : ChromeToAgent
requesting = record empty_chrome_to_agent { request = some request }

abbrev requests : Protobuf
requests = record {
  serialize_chrome_to_agent = λ m. 1 ∷ [];
  parse_chrome_to_agent = λ bytes. some requesting;
  parse_negative = λ size buffer. none;
  serialize_agent_to_chrome = λ m. 5 ∷ 6 ∷ 7 ∷ [];
  parse_agent_to_chrome = λ bytes. none;
}

abbrev machine : Machine
machine = record {
  ctime = λ t. some (codes "Thu Jan  1 00:00:00 1970" ++ (10 ∷ []));
  out_of_range = λ text. 0;
  show_handle = λ h. [];
  files = λ path. none;
}

abbrev settings : Settings
settings = record { delay = 0; save_path = [] }

abbrev world_after : Option (Text × World) → World → World
world_after none w = w
world_after (some (text, w')) w = w'

abbrev handling : Callback → World → World
handling callback w =
    world_after (handle_callback machine messages requests settings 1000 [] callback w) w

abbrev demo : Host
demo = record { os = messages; pb = requests; handler = handling }

demo-HasDemoHandler : HasDemoHandler demo machine settings (λ w. 1000) (λ w. [])
demo-HasDemoHandler = λ callback w w' text h. rw h refl

demo-ReadsMessages : ReadsMessages demo Left Waits 12 21
demo-ReadsMessages = record {
  completes = completed;
  queues = λ size rest w h. (inr (inl refl), (h, refl));
}

-- A read of four bytes waits at the message of one byte.
abbrev asked : State demo
asked = record { world = record idle { outgoing = 1 ∷ []; handles = 4 }; calls = [] }

handle_event_serves_example :
    (chunks : List Text) × (last : Text) × (length chunks ≤ 0)
    × (joined [] chunks ++ last ≡ 1 ∷ [])
    × (let (c', s') = feed demo chunks reader asked in
        let w₁ = (messages.read_result c'.event s'.world).2 in
        let d = record (receive last c') { final_size = 1 } in
        let e = (init (create 21 d.browser_info request)).1 in
        handle_event demo c'.event c' s'
        ≡ continue demo (
          ok,
          d,
          record {
            world = (write_message_to_pipe messages 21 (5 ∷ 6 ∷ 7 ∷ []) w₁).1;
            calls = analysis_requested e ∷ [];
          },
        ))
handle_event_serves_example =
    handle_event_serves demo machine settings (λ w. 1000) (λ w. []) Left Waits demo-HasDemoHandler
      request reader asked demo-ReadsMessages 0 (codes "Thu Jan  1 00:00:00 1970" ++ (10 ∷ []))
      blocked refl reader-Holds (refl, refl) (omega arith) (omega arith) refl refl refl refl judged
