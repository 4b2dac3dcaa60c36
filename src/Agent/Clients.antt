-- ===== src/Agent/Clients.antt =====
-- The browsers that the handler knows of, and those that have a connection
-- (agent/src/agent_win.cc).
use content_analysis_sdk.Prelude.{
  ℕ, ◌+◌, true, false, Bool, not, none, some, Option, List, [], ◌∷◌, ◌≡◌, refl, ◌⊎◌, inl, inr,
  arith, is_some, Bool-cases, get_elem?, set, if◌then◌else◌,
}
use content_analysis_sdk.ResultCode.{ResultCode, ok, code_eq}
use content_analysis_sdk.PipeName.{buffer_size, get_process_path}
use content_analysis_sdk.Host.{Host, State}
use content_analysis_sdk.Connection.{
  Connection, resize, new_connection, delete_connection, reset, at,
}
use content_analysis_sdk.Connection.Reading.{build_browser_info, handle_event}
use content_analysis_sdk.Connection.Sessions.{
  connects, disconnects, handle_event_connected, handle_event_listening, handle_event_keeps,
}
use content_analysis_sdk.Connection.Resetting.{
  reset_calls, new_connection_calls, delete_connection_calls,
}
use content_analysis_sdk.Agent.{
  Agent, recover, replenish, handle_connection, handle_one_event, get_handles, notify_error,
  delete_all, shutdown,
}
use content_analysis_sdk.Agent.Counts.{
  AllHandled, AllHandled-append, AllHandled-set, AllHandled-erase, AllHandled-get, connected-append,
  connected-set, connected-erase,
}
use content_analysis_sdk.Agent.Listening.{connected}

module _ (host : Host) where
  open host use {os}

  -- The handler was told of as many connects as of disconnects and browsers that are connected.
  pub record IsTold (a : Agent) (s : State host) : Type 0 where
    pub handled : AllHandled a.connections
    pub handler : a.has_handler ≡ true
    pub balance : connects s.calls ≡ disconnects s.calls + connected a.connections

  delete_all_calls :
      (cs : List Connection) (s : State host)
      → AllHandled cs
      → (connects (delete_all host cs s).calls ≡ connects s.calls)
        × (disconnects (delete_all host cs s).calls ≡ disconnects s.calls + connected cs)
  unfolding delete_all
  delete_all_calls [] s h = (refl, omega arith)
  delete_all_calls (c ∷ cs) s h = ground (
    arith,
    delete_connection_calls host c s,
    delete_all_calls cs (delete_connection host c s) h.1,
  )

  -- Shutdown, which the destructor of the agent runs: from then on the handler was told of as many
  -- disconnects as of connects.
  pub shutdown-disconnects_all :
      (a : Agent) (s : State host)
      → IsTold a s
      → connects (shutdown host a s).1.calls ≡ disconnects (shutdown host a s).1.calls
  unfolding shutdown
  shutdown-disconnects_all a s told = ground (arith, delete_all_calls a.connections s told.handled)

  pub shutdown-IsTold :
      (a : Agent) (s : State host) → IsTold a s → IsTold (shutdown host a s).0 (shutdown host a s).1
  unfolding shutdown
  shutdown-IsTold a s told =
      ground (arith, told.handler, delete_all_calls a.connections s told.handled)

  -- What the recovery from an error leaves: the connection had ended its session before.
  recover_told :
      (was_listening : Bool) (rc : ResultCode) (i : ℕ) (c c₁ : Connection) (a : Agent)
      (s : State host)
      → let (rc', conn, a', s') = recover host was_listening rc i c₁ a s in
        get_elem? a.connections i ≡ some c
        → AllHandled a.connections
        → c₁.is_connected ≡ false
        → c₁.has_handler ≡ true
        → AllHandled a'.connections
          × (a'.has_handler ≡ a.has_handler)
          × (connects s'.calls ≡ connects s.calls)
          × (disconnects s'.calls ≡ disconnects s.calls)
          × (connected a'.connections + (if c.is_connected then 1 else 0) ≡ connected a.connections)
          × (conn ≡ false ⊎ (was_listening ≡ false))
  unfolding recover
  recover_told was_listening rc i c c₁ a s e handled ended handler =
      let r = reset host a.pipename a.config.user_specific c₁ s in
      ground (
        arith,
        reset_calls host a.pipename a.config.user_specific c₁ s ended,
        delete_connection_calls host c₁ s,
        AllHandled-erase a.connections i handled,
        AllHandled-set a.connections i r.1 handled,
        connected-erase a.connections i c e,
        connected-set a.connections i c r.1 e,
      )

  -- The operating system can tell which process is the client of a pipe, and its path.
  pub record IdentifiesClients : Type 0 where
    pub client : (handle : ℕ) (w : os.World) → is_some (os.client_process_id handle w).0 ≡ true
    pub path : (pid : ℕ) (w : os.World) → is_some (get_process_path os pid w).0 ≡ true

  build-ok :
      (docs : IdentifiesClients) (c : Connection) (s : State host) (pid : Option ℕ)
      → (os.client_process_id c.handle s.world).0 ≡ pid
      → (build_browser_info host c s).0 ≡ ok
  unfolding build_browser_info
  build-ok docs c s none e = ground (arith, docs.client c.handle s.world)
  build-ok docs c s (some pid) e =
      ground (arith, docs.path pid (os.client_process_id c.handle s.world).1)

  -- The connection `c` after its event, and what the handler was told by it.
  event_told :
      (docs : IdentifiesClients) (c : Connection) (s : State host)
      → c.has_handler ≡ true
      → let (rc, c', s') = handle_event host c.event c s in
        (connects s'.calls + disconnects s.calls + (if c.is_connected then 1 else 0)
          ≡ connects s.calls + disconnects s'.calls + (if c'.is_connected then 1 else 0))
        × (c'.has_handler ≡ true)
        × ((code_eq rc ok ≡ true) ⊎ (c'.is_connected ≡ false))
  event_told docs c s handler = elim (Bool-cases c.is_connected) [
    | inl on ↦ ground (
      arith,
      handle_event_connected host c.event c s on handler,
      handle_event_keeps host c.event c s,
    )
    | inr off ↦
        let w₁ = (os.read_result c.event s.world).2 in
        let c₁ = record c { is_connected = true; buffer = resize buffer_size c.buffer } in
        ground (
          arith,
          handle_event_listening host c.event c s off handler,
          handle_event_keeps host c.event c s,
          build-ok docs c₁ (at host w₁ s) _ refl,
        )
  ]

  replenish-IsTold :
      (a : Agent) (s : State host)
      → IsTold a s
      → IsTold (replenish host a s).0 (replenish host a s).1
  unfolding replenish
  replenish-IsTold a s told =
      let made = new_connection host a.pipename a.config.user_specific a.has_handler false s in
      ground (
        arith,
        told.handled,
        new_connection_calls host a.pipename a.config.user_specific a.has_handler false s,
        AllHandled-append a.connections made.1,
        connected-append a.connections (made.1 ∷ []),
      )

  -- The connection at `i` after an event without an error.
  kept-IsTold :
      (docs : IdentifiesClients) (i : ℕ) (c : Connection) (a : Agent) (s : State host)
      → let (rc, c', s') = handle_event host c.event c s in
        get_elem? a.connections i ≡ some c
        → IsTold a s
        → code_eq rc ok ≡ true
        → IsTold (record a { connections = set a.connections i c' }) s'
  kept-IsTold docs i c a s e told fine =
      let h = handle_event host c.event c s in
      ground (
        arith,
        event_told docs c s (AllHandled-get a.connections i c told.handled e),
        AllHandled-set a.connections i h.1 told.handled,
        connected-set a.connections i c h.1 e,
      )

  recovered-IsTold :
      (docs : IdentifiesClients) (i : ℕ) (c : Connection) (a : Agent) (s : State host)
      → let (rc, c', s') = handle_event host c.event c s in
        let (rc', conn, a', s'') = recover host (not c.is_connected) rc i c' a s' in
        get_elem? a.connections i ≡ some c
        → IsTold a s
        → code_eq rc ok ≡ false
        → IsTold a' s'' × ((conn ≡ false) ⊎ (not c.is_connected ≡ false))
  recovered-IsTold docs i c a s e told failed =
      let h = handle_event host c.event c s in
      ground (
        arith,
        event_told docs c s (AllHandled-get a.connections i c told.handled e),
        recover_told (not c.is_connected) h.0 i c h.1 a h.2 e told.handled,
      )

  -- After an error the connection is recovered, and no new one is made.
  failed_event :
      (i : ℕ) (c : Connection) (a : Agent) (s : State host)
      → let (rc, c', s') = handle_event host c.event c s in
        let (rc', conn, a', s'') = recover host (not c.is_connected) rc i c' a s' in
        code_eq rc ok ≡ false
        → (conn ≡ false) ⊎ (not c.is_connected ≡ false)
        → handle_connection host i c a s ≡ (a', s'')
  unfolding handle_connection
  failed_event i c a s failed ended = ground arith

  handle_connection-IsTold :
      (docs : IdentifiesClients) (i : ℕ) (c : Connection) (a : Agent) (s : State host)
      → get_elem? a.connections i ≡ some c
      → IsTold a s
      → IsTold (handle_connection host i c a s).0 (handle_connection host i c a s).1
  unfolding handle_connection
  handle_connection-IsTold docs i c a s e told =
      let h = handle_event host c.event c s in
      let kept = record a { connections = set a.connections i h.1 } in
      elim (Bool-cases (code_eq h.0 ok)) [
        | inl fine ↦
            let told' = kept-IsTold docs i c a s e told fine in
            ground (arith, told', replenish-IsTold kept h.2 told')
        | inr failed ↦
            let told' = recovered-IsTold docs i c a s e told failed in
            rw (failed_event i c a s failed told'.1) told'.0
      ]

  one_event_at :
      (docs : IdentifiesClients) (a : Agent) (s : State host) (o : Option Connection)
      → let w = os.wait_for_multiple_objects (get_handles a) s.world in
        get_elem? a.connections w.0 ≡ o
        → IsTold a s
        → IsTold (handle_one_event host a s).2 (handle_one_event host a s).3
  unfolding handle_one_event notify_error
  one_event_at docs a s none e told = ground arith
  one_event_at docs a s (some c) e told =
      let w = os.wait_for_multiple_objects (get_handles a) s.world in
      ground (arith, handle_connection-IsTold docs w.0 c a (at host w.1 s) e)

  -- While the operating system can identify the clients of pipes, HandleOneEvent keeps this: the
  -- handler was told of exactly as many connects as there are disconnects that it was told of and
  -- browsers that are connected, over every way in which an event can end.
  pub handle_one_event-IsTold :
      (docs : IdentifiesClients) (a : Agent) (s : State host)
      → IsTold a s
      → IsTold (handle_one_event host a s).2 (handle_one_event host a s).3
  handle_one_event-IsTold docs a s told = one_event_at docs a s _ refl told
