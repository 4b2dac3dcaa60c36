-- ===== src/Tests/Events.antt =====
-- Runs of events and of the writing of their responses.
use content_analysis_sdk.Prelude.{
  ℕ, ◌++◌, ◌≡◌, refl, ◌≢◌, some, List, [], ◌∷◌, inr, Text, length, arith, ◌<◌, ◌≤◌, min, take,
}
use mathlib.Core.Bool.{false≢true, true≢false}
use content_analysis_sdk.ResultCode.{ok, error_io_pending}
use content_analysis_sdk.Event.{create, init, write_loop, write_message_to_pipe}
use content_analysis_sdk.Event.Response.{allow_response, init-create}
use content_analysis_sdk.Event.Lifetime.{Op, sets, sends, closes, run_event, run_event_sends_once}
use content_analysis_sdk.Proto.{Action}
use content_analysis_sdk.Event.Writing.{
  OverlappedWrites, write_loop_rounds, write_message_to_pipe_sends,
}
use content_analysis_sdk.Event.Writing.Pending.{write_message_to_pipe_pending}
use content_analysis_sdk.Tests.Fake.{World, fake, idle, cancelling, browser, request}

abbrev sent_bytes : ℕ → World → Text
sent_bytes p w = w.sent

abbrev sample : Text
sample = 5 ∷ 6 ∷ 7 ∷ []

partial_write :
    (bytes before : Text)
    → bytes ≢ []
    → let n = min 1 (length bytes) in
      (0 < n) × (n ≤ length bytes) × (before ++ take n bytes ≡ before ++ take n bytes)
partial_write [] before h = absurd (h refl)
partial_write (b ∷ bytes) before h = (omega arith, omega arith, refl)

fake_writes : OverlappedWrites fake sent_bytes
fake_writes = record {
  written = λ p bytes w h. absurd (false≢true h);
  not_written = λ p bytes w h. omega arith;
  some_bytes = λ p bytes w h e done ne. partial_write bytes w.sent ne;
  not_completed = λ p w h. absurd (true≢false h);
  no_event = λ w h. absurd (omega arith);
  event_created = λ p w. refl;
  handle_closed = λ p h w. refl;
}

write_sample : (write_message_to_pipe fake 20 sample idle).1.sent ≡ sample
unfolding write_message_to_pipe write_loop
write_sample = refl

write_loop_rounds_example :
    write_loop fake 3 20 sample 3 0 idle ≡ write_loop fake 9 20 sample 3 0 idle
write_loop_rounds_example =
    write_loop_rounds fake sent_bytes fake_writes 20 3 9 sample 0 idle (omega arith) (omega arith)
      (omega arith)

write_message_to_pipe_sends_example : (write_message_to_pipe fake 20 sample idle).1.sent ≡ sample
unfolding write_message_to_pipe write_loop
write_message_to_pipe_sends_example =
    write_message_to_pipe_sends fake sent_bytes fake_writes 20 sample idle (omega arith) (inr refl)

write_message_to_pipe_pending_example :
    ((write_message_to_pipe fake 20 sample idle).0 ≡ error_io_pending)
    × ((write_message_to_pipe fake 20 sample idle).1.sent ≡ sample)
write_message_to_pipe_pending_example =
    write_message_to_pipe_pending fake sent_bytes fake_writes 20 (λ bytes w. (refl, refl))
      (λ w. refl) 5 (6 ∷ 7 ∷ []) idle (omega arith) (omega arith)

init-create_example : init (create 20 browser request) ≡ (
  ok,
  record (create 20 browser request) {
    agent_to_chrome = record { response = some (allow_response request) };
  },
)
init-create_example = init-create 20 browser request

-- A verdict, the Send, a verdict that comes too late, and Close.
abbrev handled : List Op
handled = sets Action.block ∷ sends ∷ sets Action.warn ∷ closes ∷ sends ∷ []

run_event_sends_once_example :
    run_event fake cancelling handled (create 20 browser request) idle
    ≡ (write_message_to_pipe fake 20 sample idle).1
unfolding create
run_event_sends_once_example =
    run_event_sends_once fake cancelling handled (create 20 browser request) idle refl refl
