-- ===== src/Agent/Handles.antt =====
-- The handles that the agent waits on (GetHandles of agent/src/agent_win.cc).
use content_analysis_sdk.Prelude.{
  ℕ, zero, suc, false, Option, none, some, List, [], ◌∷◌, ◌++◌, ◌≡◌, refl, arith, length,
  length-append, get_elem?, ltb,
}
use content_analysis_sdk.Connection.{Connection}
use content_analysis_sdk.Agent.{Agent, events_of, get_handles, min_num_wait_handles}

-- The event of the first connection is the first of the events.
events_head :
    (d : Connection) (cs : List Connection) (events : List ℕ) (o : Option (List ℕ))
    → events_of cs ≡ o
    → events_of (d ∷ cs) ≡ some events
    → (rest : List ℕ) × (events_of cs ≡ some rest) × (events ≡ d.event ∷ rest)
unfolding events_of
events_head d cs events none e h = absurd (ground arith)
events_head d cs events (some rest) e h = (rest, e, ground arith)

pub length-events_of :
    (cs : List Connection) (events : List ℕ)
    → events_of cs ≡ some events
    → length events ≡ length cs
unfolding events_of
length-events_of [] events e = ground arith
length-events_of (d ∷ cs) events e =
    let r = events_head d cs events _ refl e in ground (arith, r.2, length-events_of cs r.0 r.1)

get-events_of :
    (cs : List Connection) (i : ℕ) (c : Connection) (events : List ℕ) (stop : ℕ)
    → events_of cs ≡ some events
    → get_elem? cs i ≡ some c
    → get_elem? (events ++ (stop ∷ [])) i ≡ some c.event
get-events_of [] i c events stop e g = ground arith
get-events_of (d ∷ cs) zero c events stop e g =
    let r = events_head d cs events _ refl e in ground (arith, r.2)
get-events_of (d ∷ cs) (suc i) c events stop e g =
    let r = events_head d cs events _ refl e in
    ground (arith, r.2, get-events_of cs i c r.0 stop r.1)

get_last :
    (events : List ℕ) (stop : ℕ) → get_elem? (events ++ (stop ∷ [])) (length events) ≡ some stop
get_last [] stop = refl
get_last (e ∷ events) stop = get_last events stop

handles_of :
    (a : Agent) (i : ℕ) (c : Connection) (o : Option (List ℕ))
    → events_of a.connections ≡ o
    → ltb (length (get_handles a)) min_num_wait_handles ≡ false
    → get_elem? a.connections i ≡ some c
    → (get_elem? (get_handles a) i ≡ some c.event)
      × (get_elem? (get_handles a) (length a.connections) ≡ some a.stop_event)
      × (length (get_handles a) ≡ suc (length a.connections))
unfolding get_handles
handles_of a i c none found enough e = absurd (ground arith)
handles_of a i c (some events) found enough e = ground (
  arith,
  length-events_of a.connections events found,
  get-events_of a.connections i c events a.stop_event found e,
  get_last events a.stop_event,
  length-append events (a.stop_event ∷ []),
)

-- If GetHandles gives at least kMinNumWaitHandles handles, then these are one for each connection
-- and one more: at the index of a connection stands its event, and the last
-- one is the stop event.
pub get-get_handles :
    (a : Agent) (i : ℕ) (c : Connection)
    → ltb (length (get_handles a)) min_num_wait_handles ≡ false
    → get_elem? a.connections i ≡ some c
    → (get_elem? (get_handles a) i ≡ some c.event)
      × (get_elem? (get_handles a) (length a.connections) ≡ some a.stop_event)
      × (length (get_handles a) ≡ suc (length a.connections))
get-get_handles a i c enough e = handles_of a i c _ refl enough e
