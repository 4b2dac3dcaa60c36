-- ===== src/Agent.antt =====
-- AgentWin of agent/src/agent_win.cc and agent_win.h with its base class (agent_base.cc): the
-- connections, the stop event and the loop over their events.
pub mod Listening
pub mod Counts
pub mod Clients
pub mod Handles
pub mod Bounds
pub mod Debug
pub mod Lifetime
pub mod Stopping
pub mod Refusing
pub mod Isolation
use content_analysis_sdk.Prelude.{
  ℕ, zero, suc, ◌+◌, ◌-◌, Bool, true, false, ◌&&◌, ◌||◌, not, Option, none, some, List, [], ◌∷◌,
  ◌++◌, Text, codes, length, get_elem?, set, erase_idx, is_empty, ltb, ◌==◌, if◌then◌else◌,
}
use content_analysis_sdk.ResultCode.{
  ResultCode, ok, agent_not_initialized, agent_event_handler_not_specified,
  cannot_create_agent_stop_event, invalid_channel_name, code_eq, error_to_result_code,
}
use content_analysis_sdk.Windows.{null_handle, wait_failed}
use content_analysis_sdk.PipeName.{get_pipe_name_for_agent}
use content_analysis_sdk.Host.{Host, State, call, internal_error}
use content_analysis_sdk.Connection.{
  Connection, is_valid, at, new_connection, delete_connection, reset,
}
use content_analysis_sdk.Connection.Reading.{handle_event}

-- `kMinNumListeningPipeInstances` and `kMinNumWaitHandles`.
abbrev pub min_num_listening_pipe_instances : ℕ
min_num_listening_pipe_instances = 2

abbrev pub min_num_wait_handles : ℕ
min_num_wait_handles = min_num_listening_pipe_instances + 1

-- Agent::Config, and AgentWin with the members of its base class; `stop_event` is null where there is
-- none.
pub record Config : Type 0 where
  pub name : Text
  pub user_specific : Bool

pub record Agent : Type 0 where
  pub config : Config
  pub has_handler : Bool
  pub pipename : Text
  pub connections : List Connection
  pub stop_event : ℕ

-- GetHandles: the events of the connections, or none of them if one is null, and the stop event.
unfoldable pub events_of : List Connection → Option (List ℕ)
events_of [] = some []
events_of (c ∷ cs) = elim (events_of cs) [
  | none ↦ none
  | some events ↦ if c.event == null_handle then none else some (c.event ∷ events)
]

unfoldable pub get_handles : Agent → List ℕ
get_handles a = elim (events_of a.connections) [
  | none ↦ a.stop_event ∷ []
  | some events ↦ events ++ (a.stop_event ∷ [])
]

-- IsAClientConnectedForTesting.
pub is_a_client_connected : List Connection → Bool
is_a_client_connected [] = false
is_a_client_connected (c ∷ cs) = c.is_connected || is_a_client_connected cs

module _ (host : Host) where
  open host use {os}
  open os use {
    World, get_last_error, create_event, set_event, close_handle, wait_for_multiple_objects,
  }

  -- AgentBase::NotifyError.
  pub notify_error : Agent → Text → ResultCode → State host → State host
  notify_error a context error s =
      if a.has_handler then call host (internal_error context error) s else s

  -- `connections_.clear()`.
  unfoldable pub delete_all : List Connection → State host → State host
  delete_all [] s = s
  delete_all (c ∷ cs) s = delete_all cs (delete_connection host c s)

  unfoldable pub shutdown : Agent → State host → Agent × State host
  shutdown a s =
      let s₁ = delete_all a.connections s in
      let a₁ = record a { connections = []; pipename = []; stop_event = null_handle } in
      (
        a₁,
        if a.stop_event == null_handle then s₁ else at host (close_handle a.stop_event s₁.world) s₁,
      )

  -- The loop of the constructor: `left` connections are still to be made, and the first one made
  -- is the first pipe. It stops at a connection that fails.
  unfoldable pub make_connections :
      ℕ → Bool → ResultCode → Agent → State host → ResultCode × Agent × State host
  make_connections zero is_first_pipe rc a s = (rc, a, s)
  make_connections (suc left) is_first_pipe rc a s =
      let (rc₁, c, s₁) =
        new_connection host a.pipename a.config.user_specific a.has_handler is_first_pipe s in
      let a₁ = record a { connections = a.connections ++ (c ∷ []) } in
      let rest = make_connections left false rc₁ a₁ s₁ in
      let (a₂, s₂) = shutdown a₁ s₁ in if code_eq rc₁ ok && is_valid c then rest else (rc₁, a₂, s₂)

  -- The constructor.
  unfoldable pub new_agent : Config → Bool → State host → ResultCode × Agent × State host
  new_agent config has_handler s =
      let a : Agent = record {
        config = config;
        has_handler = has_handler;
        pipename = [];
        connections = [];
        stop_event = null_handle;
      } in
      let (event, w₁) = create_event s.world in
      let a₁ = record a { stop_event = event } in
      let (pipename, w₂) = get_pipe_name_for_agent os config.name config.user_specific w₁ in
      let a₂ = record a₁ { pipename = pipename } in
      let made = make_connections min_num_listening_pipe_instances true ok a₂ (at host w₂ s) in
      if has_handler
      then if event == null_handle
        then (cannot_create_agent_stop_event, a₁, at host w₁ s)
        else if is_empty pipename
        then (invalid_channel_name, a₁, at host w₂ s)
        else made
      else (agent_event_handler_not_specified, a, s)

  -- Agent::Create: an agent that is not OK is destroyed.
  unfoldable pub create : Config → Bool → State host → ResultCode × Option Agent × State host
  create config has_handler s =
      let (rc, a, s₁) = new_agent config has_handler s in
      if code_eq rc ok then (rc, some a, s₁) else (rc, none, (shutdown a s₁).1)

  -- What HandleOneEvent does when HandleEvent of the connection at `index` returned an error:
  -- delete the connection, or reset it.
  pub recover :
      Bool
      → ResultCode
      → ℕ
      → Connection
      → Agent
      → State host
      → ResultCode × Bool × Agent × State host
  recover was_listening rc index c a s =
      let (rc₁, c₁, s₁) = reset host a.pipename a.config.user_specific c s in
      if not was_listening && ltb min_num_listening_pipe_instances (length a.connections)
      then (
        rc,
        false,
        record a { connections = erase_idx a.connections index },
        delete_connection host c s,
      )
      else (rc₁, c₁.is_connected, record a { connections = set a.connections index c₁ }, s₁)

  -- A connection that listened and is connected now gets a successor. Whether that could be made
  -- is not looked at.
  pub replenish : Agent → State host → Agent × State host
  replenish a s =
      let (rc, c, s₁) =
        new_connection host a.pipename a.config.user_specific a.has_handler false s in
      (record a { connections = a.connections ++ (c ∷ []) }, s₁)

  -- HandleOneEvent behind the wait, for the connection at `index`.
  pub handle_connection : ℕ → Connection → Agent → State host → Agent × State host
  handle_connection index c a s =
      let was_listening = not c.is_connected in
      let (rc, c₁, s₁) = handle_event host c.event c s in
      let (rc₂, connected, a₂, s₂) =
        if code_eq rc ok
        then (ok, c₁.is_connected, record a { connections = set a.connections index c₁ }, s₁)
        else recover was_listening rc index c₁ a s₁ in
      if code_eq rc₂ ok && (was_listening && connected) then replenish a₂ s₂ else (a₂, s₂)

  -- HandleOneEvent, with `stopped`. An index that is no connection's would be out of bounds in the
  -- source; the operating system returns none.
  unfoldable pub handle_one_event : Agent → State host → ResultCode × Bool × Agent × State host
  handle_one_event a s =
      let wait_handles = get_handles a in
      let (index, w₁) = wait_for_multiple_objects wait_handles s.world in
      let s₁ = at host w₁ s in
      let failure = error_to_result_code (get_last_error w₁) in
      if ltb (length wait_handles) min_num_wait_handles
      then (
        agent_not_initialized,
        false,
        a,
        notify_error a (codes "GetHandles") agent_not_initialized s,
      )
      else if index == wait_failed
      then (failure, false, a, notify_error a (codes "WaitForMultipleObjects") failure s₁)
      else if index == length wait_handles - 1
      then (ok, true, a, s₁)
      else elim (get_elem? a.connections index) [
        | none ↦ (ok, false, a, s₁)
        | some c ↦ let (a₂, s₂) = handle_connection index c a s₁ in (ok, false, a₂, s₂)
      ]

  -- HandleEvents runs until the stop event or an error; `none` if it still runs after so many
  -- events.
  unfoldable pub handle_events : ℕ → Agent → State host → Option (ResultCode × Agent × State host)
  handle_events zero a s = none
  handle_events (suc events) a s =
      let (rc, stopped, a₁, s₁) = handle_one_event a s in
      let rest = handle_events events a₁ s₁ in
      if stopped then some (rc, a₁, s₁) else if code_eq rc ok then rest else some (rc, a₁, s₁)

  pub stop : Agent → State host → ResultCode × State host
  stop a s = let (done, w₁) = set_event a.stop_event s.world in (ok, at host w₁ s)
