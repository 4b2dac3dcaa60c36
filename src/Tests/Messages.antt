-- ===== src/Tests/Messages.antt =====
-- Runs over a pipe in message mode.
use content_analysis_sdk.Prelude.{
  ℕ, ◌≤◌, Bool, true, false, some, List, [], ◌∷◌, ◌++◌, ◌≡◌, refl, inl, inr, Text, length, take,
  drop, leb, arith, replicate,
}
use content_analysis_sdk.Windows.{Windows}
use content_analysis_sdk.Windows.Messages.{Completes}
use content_analysis_sdk.Host.{Host, State}
use content_analysis_sdk.Tests.Fake.{World, fake, idle, reader, cancelling, reader-Holds}
use content_analysis_sdk.Connection.{receive, at}
use content_analysis_sdk.Connection.Reading.{handle_message, continue, handle_event}
use content_analysis_sdk.Connection.Reassembly.Message.{joined, feed}
use content_analysis_sdk.Tests.Fake.{request}
use content_analysis_sdk.Tests.Programs.{replies, client, blocking}
use content_analysis_sdk.Client.{write_message_to_pipe, send}
use content_analysis_sdk.Client.{returned, read_next_message_from_pipe}
use content_analysis_sdk.Client.Messages.{
  ReadsMessages, read_next_message_from_pipe_whole, send_answered,
}
use content_analysis_sdk.Connection.Reassembly.Rounds.{
  ReadsMessages as HandlesMessages, handle_event_receives,
}

-- `outgoing` is what is left of the message in the pipe, `handles` the size of the read that waits.
abbrev pub complete_read : Bool → World → Bool × Text × World
complete_read true w = (true, w.outgoing, record w { outgoing = [] })
complete_read false w = (
  false,
  take w.handles w.outgoing,
  record w { outgoing = drop w.handles w.outgoing; last_error = 234 },
)

abbrev pub messages : Windows
messages = record fake {
  read_file = λ h size w. (false, [], record w { handles = size; last_error = 997 });
  write_file = λ h bytes w. (true, w);
  read_result = λ h w. complete_read (leb (length w.outgoing) w.handles) w;
}

abbrev pub Left : Text → World → Type 0
Left rest w = w.outgoing ≡ rest

abbrev pub Waits : ℕ → Text → World → Type 0
Waits size rest w = (w.outgoing ≡ rest) × (w.handles ≡ size)

pub completed :
    (size : ℕ) (rest : Text) (w : World)
    → Waits size rest w
    → let (success, bytes, w₁) = complete_read (leb (length w.outgoing) w.handles) w in
      Completes messages Left size rest success bytes w₁
completed size rest w h = ground (arith, h)

messages-ReadsMessages : ReadsMessages messages (λ pipe. Left)
messages-ReadsMessages = record {
  reads = λ pipe size rest w h.
      inr
        (refl, refl, completed size rest (record w { handles = size; last_error = 997 }) (h, refl));
}

abbrev messages_host : Host
messages_host = record { os = messages; pb = cancelling; handler = λ c w. w }

messages-HandlesMessages : HandlesMessages messages_host Left Waits 12 21
messages-HandlesMessages = record {
  completes = completed;
  queues = λ size rest w h. (inr (inl refl), (h, refl));
}

abbrev long : Text
long = replicate 5000 7

read_next_message_from_pipe_whole_example :
    (w' : World) × (read_next_message_from_pipe messages 2 20 (record idle { outgoing = long })
      ≡ returned (long, w'))
read_next_message_from_pipe_whole_example =
    read_next_message_from_pipe_whole messages (λ pipe. Left) messages-ReadsMessages 20 1 long
      (record idle { outgoing = long }) refl (omega arith) (omega arith)

abbrev six : Text
six = 1 ∷ 2 ∷ 3 ∷ 4 ∷ 5 ∷ 6 ∷ []

-- A read of four bytes waits at a message of six.
abbrev reading : State messages_host
reading = record { world = record idle { outgoing = six; handles = 4 }; calls = [] }

handle_event_receives_example :
    (chunks : List Text) × (last : Text) × (length chunks ≤ 1)
    × (joined [] chunks ++ last ≡ six)
    × (let (c', s') = feed messages_host chunks reader reading in
        let w₁ = (messages.read_result c'.event s'.world).2 in
        let d = record (receive last c') { final_size = 6 } in
        let (rc, s'') = handle_message messages_host d six (at messages_host w₁ s') in
        (s'.calls ≡ [])
        × (handle_event messages_host c'.event c' s' ≡ continue messages_host (rc, d, s'')))
handle_event_receives_example =
    handle_event_receives messages_host Left Waits reader reading messages-HandlesMessages 1 six
      reader-Holds (refl, refl) (omega arith) (omega arith)

abbrev answering : World
answering = record idle { outgoing = 5 ∷ 6 ∷ 7 ∷ [] }

send_answered_example :
    (w' : World) × (send messages replies 2 client request answering
      ≡ returned (some blocking, messages.close_handle 10 w'))
unfolding write_message_to_pipe
send_answered_example =
    send_answered messages (λ pipe. Left) messages-ReadsMessages replies 1 client request blocking
      (5 ∷ 6 ∷ 7 ∷ []) answering refl refl refl (omega arith) refl (omega arith) refl
