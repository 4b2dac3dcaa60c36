-- ===== src/Event/Lifetime.antt =====
-- The life of a ContentAnalysisEvent (agent/src/event_win.cc, event_base.cc) in the hands of the
-- embedder: from Init to the destructor.
use content_analysis_sdk.Prelude.{true, false, List, [], ◌∷◌, some, ◌≡◌, refl, arith, ◌==◌}
use content_analysis_sdk.Proto.{
  Action, AgentToChrome, ContentAnalysisResponse, Protobuf, response_of,
}
use content_analysis_sdk.Windows.{Windows, invalid_handle_value}
use content_analysis_sdk.Event.{
  Event, set_verdict, set_event_verdict_to, write_message_to_pipe, send, shutdown, close,
}

-- What the embedder does with an event: change the response that GetResponse refers to, call
-- SetEventVerdictTo, Send or Close.
pub data Op : Type 0 where
  responds : (ContentAnalysisResponse → ContentAnalysisResponse) → Op
  sets : Action → Op
  sends closes : Op

-- The response changed through GetResponse().
pub change_response : (ContentAnalysisResponse → ContentAnalysisResponse) → Event → Event
change_response f e = record e {
  agent_to_chrome = record { response = some (f (response_of e.agent_to_chrome)) };
}

-- What the event would send when it is first sent, closed or destroyed.
pub first_message : List Op → Event → AgentToChrome
unfolding change_response
first_message [] e = e.agent_to_chrome
first_message (responds f ∷ ops) e = first_message ops (change_response f e)
first_message (sets action ∷ ops) e = first_message ops (set_event_verdict_to e action).1
first_message (sends ∷ ops) e = e.agent_to_chrome
first_message (closes ∷ ops) e = e.agent_to_chrome

module _ (os : Windows) (pb : Protobuf) where
  open os use {World, flush_file_buffers}
  open pb use {serialize_agent_to_chrome}

  -- The operations, and then the destructor.
  pub run_event : List Op → Event → World → World
  unfolding change_response
  run_event [] e w = (shutdown os pb e w).1
  run_event (responds f ∷ ops) e w = run_event ops (change_response f e) w
  run_event (sets action ∷ ops) e w = run_event ops (set_event_verdict_to e action).1 w
  run_event (sends ∷ ops) e w = let (rc, e₁, w₁) = send os pb e w in run_event ops e₁ w₁
  run_event (closes ∷ ops) e w = let (rc, e₁, w₁) = close os pb e w in run_event ops e₁ w₁

set_verdict_keeps :
    (e : Event) (action : Action)
    → let e' = (set_event_verdict_to e action).1 in
      (e'.pipe ≡ e.pipe) × (e'.response_sent ≡ e.response_sent)
unfolding set_event_verdict_to set_verdict
set_verdict_keeps e action = ground arith

module _ (os : Windows) (pb : Protobuf) where
  open os use {World, flush_file_buffers}
  open pb use {serialize_agent_to_chrome}

  -- A closed event does nothing more.
  closed_event :
      (ops : List Op) (e : Event) (w : World)
      → (e.pipe == invalid_handle_value) ≡ true
      → e.response_sent ≡ true
      → run_event os pb ops e w ≡ w
  unfolding run_event send close shutdown change_response
  closed_event [] e w invalid sent = ground arith
  closed_event (responds f ∷ ops) e w invalid sent =
      closed_event ops (change_response f e) w invalid sent
  closed_event (sets action ∷ ops) e w invalid sent =
      let e₁ = (set_event_verdict_to e action).1 in
      ground (arith, set_verdict_keeps e action, closed_event ops e₁ w)
  closed_event (sends ∷ ops) e w invalid sent = ground (arith, closed_event ops e w invalid sent)
  closed_event (closes ∷ ops) e w invalid sent = ground (arith, closed_event ops e w invalid sent)

  -- An event that was sent and not closed flushes its pipe once.
  sent_event :
      (ops : List Op) (e : Event) (w : World)
      → (e.pipe == invalid_handle_value) ≡ false
      → e.response_sent ≡ true
      → run_event os pb ops e w ≡ flush_file_buffers e.pipe w
  unfolding run_event send close shutdown change_response
  sent_event [] e w valid sent = ground arith
  sent_event (responds f ∷ ops) e w valid sent = sent_event ops (change_response f e) w valid sent
  sent_event (sets action ∷ ops) e w valid sent =
      let e₁ = (set_event_verdict_to e action).1 in
      ground (arith, set_verdict_keeps e action, sent_event ops e₁ w)
  sent_event (sends ∷ ops) e w valid sent = ground (arith, sent_event ops e w valid sent)
  sent_event (closes ∷ ops) e w valid sent =
      let e₁ = record e { pipe = invalid_handle_value } in
      let w₁ = flush_file_buffers e.pipe w in ground (arith, closed_event ops e₁ w₁ refl sent)

  -- Whatever the embedder does with an event that was not sent and has a valid pipe, in any order,
  -- until the event is destroyed: exactly one message is written to the pipe, and the pipe is flushed
  -- once after it. The message is the response as it stands at the first Send or Close, or at the end
  -- where there is none; what is changed later is not sent.
  pub run_event_sends_once :
      (ops : List Op) (e : Event) (w : World)
      → (e.pipe == invalid_handle_value) ≡ false
      → e.response_sent ≡ false
      → run_event os pb ops e w
        ≡ flush_file_buffers e.pipe
            (write_message_to_pipe os e.pipe (serialize_agent_to_chrome (first_message ops e)) w).1
  unfolding run_event first_message send close shutdown change_response
  run_event_sends_once [] e w valid unsent = ground arith
  run_event_sends_once (responds f ∷ ops) e w valid unsent =
      run_event_sends_once ops (change_response f e) w valid unsent
  run_event_sends_once (sets action ∷ ops) e w valid unsent =
      let e₁ = (set_event_verdict_to e action).1 in
      ground (arith, set_verdict_keeps e action, run_event_sends_once ops e₁ w)
  run_event_sends_once (sends ∷ ops) e w valid unsent =
      let message = serialize_agent_to_chrome e.agent_to_chrome in
      let w₁ = (write_message_to_pipe os e.pipe message w).1 in
      ground (arith, sent_event ops (record e { response_sent = true }) w₁ valid refl)
  run_event_sends_once (closes ∷ ops) e w valid unsent =
      let message = serialize_agent_to_chrome e.agent_to_chrome in
      let w₁ = flush_file_buffers e.pipe (write_message_to_pipe os e.pipe message w).1 in
      let e₁ = record e { pipe = invalid_handle_value; response_sent = true } in
      ground (arith, closed_event ops e₁ w₁ refl refl)
