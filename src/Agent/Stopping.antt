-- ===== src/Agent/Stopping.antt =====
-- Stop of the agent (agent/src/agent_win.cc): the stop event is the last handle that HandleOneEvent
-- waits on, and WaitForMultipleObjects reports the first one that is signalled.
use content_analysis_sdk.Prelude.{
  ℕ, suc, ◌<◌, ◌≤◌, true, false, Bool, ◌||◌, not, Option, none, some, List, [], ◌∷◌, ◌++◌, ◌≡◌,
  refl, ◌⊎◌, arith, length, length-append, Bool-cases, inl, inr, get_elem?, if◌then◌else◌,
}
use content_analysis_sdk.ResultCode.{ok}
use content_analysis_sdk.Windows.{Windows}
use content_analysis_sdk.Host.{Host, State}
use content_analysis_sdk.Connection.{Connection, at}
use content_analysis_sdk.Agent.{
  Agent, events_of, get_handles, min_num_listening_pipe_instances, handle_one_event, handle_events,
}
use content_analysis_sdk.Agent.Handles.{length-events_of}

-- The index of the first handle that passes a test.
abbrev pub first_index : (ℕ → Bool) → List ℕ → Option ℕ
first_index p [] = none
first_index p (h ∷ hs) =
    if p h then some 0 else elim (first_index p hs) [ none ↦ none | some i ↦ some (suc i) ]

abbrev pub any : (ℕ → Bool) → List ℕ → Bool
any p [] = false
any p (h ∷ hs) = p h || any p hs

-- What is documented of WaitForMultipleObjects: where handles are signalled it does not wait, and
-- reports the lowest index of them; it takes at most MAXIMUM_WAIT_OBJECTS handles.
pub record ReportsFirst (os : Windows) (signalled : ℕ → os.World → Bool) : Type 0 where
  pub reported :
      (handles : List ℕ) (w : os.World) (i : ℕ)
      → length handles ≤ 64
      → first_index (λ h. signalled h w) handles ≡ some i
      → (os.wait_for_multiple_objects handles w).0 ≡ i

-- The last handle is reported exactly if it is the only one.
first_of :
    (p : ℕ → Bool) (events : List ℕ) (stop : ℕ)
    → p stop ≡ true
    → (i : ℕ) × (first_index p (events ++ (stop ∷ [])) ≡ some i)
      × (any p events ≡ true → i < length events)
      × (any p events ≡ false → i ≡ length events)
first_of p [] stop h = (0, ground arith, λ e. cc e, λ e. refl)
first_of p (e ∷ events) stop h =
    let (i, found, before, last) = first_of p events stop h in
    elim (Bool-cases (p e)) [
      | inl on ↦ (0, ground (arith, on), λ e. omega arith, λ e. ground (arith, on, e))
      | inr off ↦ (
        suc i,
        ground (arith, off, found),
        λ e. ground (arith, off, e, before),
        λ e. ground (arith, off, e, last),
      )
    ]

module _ (host : Host) (signalled : ℕ → host.os.World → Bool) where
  open host use {os}

  -- The index that HandleOneEvent gets, against that of the stop event.
  reported_index :
      (docs : ReportsFirst os signalled) (a : Agent) (s : State host) (events : List ℕ)
      → events_of a.connections ≡ some events
      → length a.connections < 64
      → signalled a.stop_event s.world ≡ true
      → let i = (os.wait_for_multiple_objects (get_handles a) s.world).0 in
        let any_browser = any (λ h. signalled h s.world) events in
        (any_browser ≡ true → i < length a.connections)
        × (any_browser ≡ false → i ≡ length a.connections)
        × (length (get_handles a) ≡ suc (length a.connections))
  unfolding get_handles
  reported_index docs a s events found few stopping =
      let (i, at', before, last) =
        first_of (λ h. signalled h s.world) events a.stop_event stopping in
      ground (
        arith,
        docs.reported (events ++ (a.stop_event ∷ [])) s.world i
            (omega (
              arith,
              few,
              length-events_of a.connections events found,
              length-append events (a.stop_event ∷ []),
            ))
            at',
        before,
        last,
        length-events_of a.connections events found,
        length-append events (a.stop_event ∷ []),
      )

  goes_on :
      (a : Agent) (s : State host) (o : Option Connection)
      → let i = (os.wait_for_multiple_objects (get_handles a) s.world).0 in
        get_elem? a.connections i ≡ o
        → i < length a.connections
        → length (get_handles a) ≡ suc (length a.connections)
        → (handle_one_event host a s).1 ≡ false
  unfolding handle_one_event
  goes_on a s none e lt size = ground arith
  goes_on a s (some c) e lt size = ground arith

  stops_one :
      (a : Agent) (s : State host)
      → (os.wait_for_multiple_objects (get_handles a) s.world).0 ≡ length a.connections
      → length (get_handles a) ≡ suc (length a.connections)
      → min_num_listening_pipe_instances ≤ length a.connections
      → length a.connections < 64
      → (handle_one_event host a s).1 ≡ true
  unfolding handle_one_event
  stops_one a s last size enough few = ground arith

  stops_now :
      (events : ℕ) (a : Agent) (s : State host)
      → let (i, w₁) = os.wait_for_multiple_objects (get_handles a) s.world in
        i ≡ length a.connections
        → length (get_handles a) ≡ suc (length a.connections)
        → min_num_listening_pipe_instances ≤ length a.connections
        → length a.connections < 64
        → handle_events host (suc events) a s ≡ some (ok, a, at host w₁ s)
  unfolding handle_events handle_one_event
  stops_now events a s last size enough few = ground arith

  -- Once the stop event is signalled, at an agent with its events and its listening connections:
  -- HandleOneEvent stops exactly if the event of no connection is signalled too, so that it handles
  -- those events first; and where none is, HandleEvents returns OK in its next round and leaves the
  -- agent as it is. There are fewer than MAXIMUM_WAIT_OBJECTS (64) connections, and
  -- WaitForMultipleObjects reports the first handle that is signalled.
  pub handle_events-stops :
      (docs : ReportsFirst os signalled) (a : Agent) (s : State host) (events : List ℕ) (rounds : ℕ)
      → events_of a.connections ≡ some events
      → min_num_listening_pipe_instances ≤ length a.connections
      → length a.connections < 64
      → signalled a.stop_event s.world ≡ true
      → let any_browser = any (λ h. signalled h s.world) events in
        let w₁ = (os.wait_for_multiple_objects (get_handles a) s.world).1 in
        ((handle_one_event host a s).1 ≡ not any_browser)
        × ((any_browser ≡ true)
            ⊎ (handle_events host (suc rounds) a s ≡ some (ok, a, at host w₁ s)))
  handle_events-stops docs a s events rounds found enough few stopping =
      let (before, last, size) = reported_index docs a s events found few stopping in
      elim (Bool-cases (any (λ h. signalled h s.world) events)) [
        | inl some_browser ↦
            (rw some_browser (goes_on a s _ refl (before some_browser) size), inl some_browser)
        | inr idle ↦
            let i = last idle in
            (
              rw idle (stops_one a s i size enough few),
              inr (stops_now rounds a s i size enough few),
            )
      ]
