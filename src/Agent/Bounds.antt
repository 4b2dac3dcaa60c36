-- ===== src/Agent/Bounds.antt =====
-- How many browsers the loop of agent/src/agent_win.cc can serve: WaitForMultipleObjects waits on at
-- most MAXIMUM_WAIT_OBJECTS handles, and the agent hands it one for each connection.
use content_analysis_sdk.Prelude.{
  ℕ, suc, ◌<◌, ◌≤◌, Option, none, some, List, [], ◌∷◌, ◌≡◌, ◌≢◌, refl, arith, length, length-append,
  codes, false, ◌⊎◌, inl, inr, Bool-cases,
}
use content_analysis_sdk.ResultCode.{
  ResultCode, ok, agent_not_initialized, error_to_result_code, error_success, code_eq,
}
use content_analysis_sdk.ResultCode.Recoverable.{error_to_result_code_classes, code_eq→eq}
use content_analysis_sdk.Windows.{Windows, wait_failed}
use content_analysis_sdk.Host.{Host, State}
use content_analysis_sdk.Connection.{at}
use content_analysis_sdk.Agent.{
  Agent, events_of, get_handles, notify_error, handle_one_event, handle_events,
}
use content_analysis_sdk.Agent.Handles.{length-events_of}

abbrev pub maximum_wait_objects : ℕ
maximum_wait_objects = 64

-- What is documented of WaitForMultipleObjects: more handles than that are refused, with an error.
abbrev pub RefusesTooMany : Windows → Type 0
RefusesTooMany os =
    (handles : List ℕ) (w : os.World)
    → maximum_wait_objects < length handles
    → let (index, w₁) = os.wait_for_multiple_objects handles w in
      (index ≡ wait_failed) × (os.get_last_error w₁ ≢ error_success)

-- The handles are none but the stop event, or one more than the connections.
length-get_handles :
    (a : Agent) (o : Option (List ℕ))
    → events_of a.connections ≡ o
    → (length (get_handles a) ≡ 1) ⊎ (length (get_handles a) ≡ suc (length a.connections))
unfolding get_handles
length-get_handles a none found = inl (ground arith)
length-get_handles a (some events) found = inr (
    ground (
      arith,
      length-events_of a.connections events found,
      length-append events (a.stop_event ∷ []),
    ))

not_ok : (code : ResultCode) → code ≢ ok → code_eq code ok ≡ false
not_ok code h = elim (Bool-cases (code_eq code ok)) [
  | inl same ↦ absurd (h (code_eq→eq code ok same))
  | inr differs ↦ differs
]

module _ (host : Host) where
  open host use {os}

  one_event_full :
      (refuses : RefusesTooMany os) (a : Agent) (s : State host)
      → maximum_wait_objects ≤ length a.connections
      → (rc : ResultCode) × (s' : State host) × (handle_one_event host a s ≡ (rc, false, a, s'))
        × (rc ≢ ok)
  unfolding handle_one_event
  one_event_full refuses a s full =
      let (index, w₁) = os.wait_for_multiple_objects (get_handles a) s.world in
      let failure = error_to_result_code (os.get_last_error w₁) in
      elim (length-get_handles a _ refl) [
        | inl few ↦ (
          agent_not_initialized,
          notify_error host a (codes "GetHandles") agent_not_initialized s,
          ground (arith, few),
          ground arith,
        )
        | inr many ↦
            let (failed, why) = refuses (get_handles a) s.world (omega (arith, many)) in
            (
              failure,
              notify_error host a (codes "WaitForMultipleObjects") failure (at host w₁ s),
              ground (arith, many, failed),
              λ e. why ((error_to_result_code_classes (os.get_last_error w₁)).1.0 e),
            )
      ]

  -- An agent with MAXIMUM_WAIT_OBJECTS or more connections handles no further event of any browser:
  -- where the operating system refuses to wait on more handles than that, HandleEvents returns an
  -- error at once and leaves the agent as it is.
  pub handle_events_full :
      (refuses : RefusesTooMany os) (events : ℕ) (a : Agent) (s : State host)
      → maximum_wait_objects ≤ length a.connections
      → (rc : ResultCode) × (s' : State host) × (handle_events host (suc events) a s
          ≡ some (rc, a, s'))
        × (rc ≢ ok)
  unfolding handle_events
  handle_events_full refuses events a s full =
      let (rc, s', one, failed) = one_event_full refuses a s full in
      (rc, s', ground (arith, one, not_ok rc failed), failed)
