-- ===== src/Agent/Isolation.antt =====
-- HandleOneEvent (agent/src/agent_win.cc) and the connections that its event does not belong to.
use content_analysis_sdk.Prelude.{
  ℕ, ◌<◌, Bool, true, false, Option, none, some, List, [], ◌∷◌, ◌++◌, ◌≡◌, refl, sym, ap, ◌∙◌,
  arith, ◌⊎◌, inl, inr, not, ◌&&◌, ltb, Bool-cases, length, get_elem?, set, erase_idx,
  if◌then◌else◌,
}
use content_analysis_sdk.ResultCode.{ResultCode, ok, code_eq}
use content_analysis_sdk.Host.{Host, State}
use content_analysis_sdk.Connection.{Connection, at, new_connection, reset}
use content_analysis_sdk.Connection.Reading.{handle_event}
use content_analysis_sdk.Agent.{
  Agent, min_num_listening_pipe_instances, recover, replenish, handle_connection, get_handles,
  handle_one_event,
}

-- How the connections may change by an event of the connection `c` at `index`: it is replaced; or it
-- is deleted, where it had a browser and there are more connections than have to listen; or it had
-- none, is replaced by one that has, and a connection is added at the end.
abbrev pub Affects : ℕ → Connection → List Connection → List Connection → Type 0
Affects index c before after =
    ((c' : Connection) × (after ≡ set before index c'))
    ⊎ (((c.is_connected ≡ true)
          × (min_num_listening_pipe_instances < length before)
          × (after ≡ erase_idx before index))
        ⊎ ((c' : Connection) × (added : Connection) × (c.is_connected ≡ false)
            × (c'.is_connected ≡ true)
            × (after ≡ set before index c' ++ (added ∷ []))))

module _ (host : Host) where
  open host use {os}

  -- Recovering from an error deletes the connection, which is then not reported as connected, or
  -- replaces it.
  Recovers : Bool → ℕ → List Connection → Bool → List Connection → Type 0
  Recovers was_listening index before connected after =
      ((was_listening ≡ false)
        × (min_num_listening_pipe_instances < length before)
        × (connected ≡ false)
        × (after ≡ erase_idx before index))
      ⊎ ((c' : Connection) × (connected ≡ c'.is_connected) × (after ≡ set before index c'))

  recovered :
      (was_listening : Bool) (rc : ResultCode) (index : ℕ) (c : Connection) (a : Agent)
      (s : State host)
      → let (rc', connected, a', s') = recover host was_listening rc index c a s in
        Recovers was_listening index a.connections connected a'.connections
  unfolding Recovers recover
  recovered was_listening rc index c a s =
      let c' = (reset host a.pipename a.config.user_specific c s).1 in
      let deletes =
        not was_listening && ltb min_num_listening_pipe_instances (length a.connections) in
      elim (Bool-cases deletes) [
        | inl e ↦ inl (ground (arith, e))
        | inr e ↦ inr (c', ground (arith, e), ground (arith, e))
      ]

  -- The successor of a connection that accepted a browser.
  succeeded :
      (rc : ResultCode) (was_listening connected : Bool) (a : Agent) (s : State host)
      → let after : Agent × State host =
          if code_eq rc ok && (was_listening && connected) then replenish host a s else (a, s) in
        (after.0.connections ≡ a.connections)
        ⊎ ((added : Connection) × (was_listening ≡ true)
            × (connected ≡ true)
            × (after.0.connections ≡ a.connections ++ (added ∷ [])))
  unfolding replenish
  succeeded rc was_listening connected a s =
      let added = (new_connection host a.pipename a.config.user_specific a.has_handler false s).1 in
      elim (Bool-cases (code_eq rc ok && (was_listening && connected))) [
        | inl e ↦ inr (added, ground (arith, e), ground (arith, e), ground (arith, e))
        | inr e ↦ inl (ground (arith, e))
      ]

  combined :
      (index : ℕ) (c : Connection) (was_listening connected : Bool)
      (before middle after : List Connection)
      → was_listening ≡ not c.is_connected
      → Recovers was_listening index before connected middle
      → (after ≡ middle)
        ⊎ ((added : Connection) × (was_listening ≡ true)
            × (connected ≡ true)
            × (after ≡ middle ++ (added ∷ [])))
      → Affects index c before after
  unfolding Recovers
  combined index c was_listening connected before middle after w (inl (gone, many, quiet, e))
        (inl same) =
      inr (inl (ground (arith, w, gone), many, same ∙ e))
  combined index c was_listening connected before middle after w (inl (gone, many, quiet, e))
        (inr (added, listening, accepted, f)) =
      absurd (ground (arith, quiet, accepted))
  combined index c was_listening connected before middle after w (inr (c', flag, e)) (inl same) =
      inl (c', same ∙ e)
  combined index c was_listening connected before middle after w (inr (c', flag, e))
        (inr (added, listening, accepted, f)) =
      inr (
        inr (
          c',
          added,
          ground (arith, w, listening),
          sym flag ∙ accepted,
          f ∙ ap (λ l. l ++ (added ∷ [])) e,
        ))

  handled :
      (index : ℕ) (c : Connection) (a : Agent) (s : State host)
      → Affects index c a.connections (handle_connection host index c a s).0.connections
  unfolding handle_connection Recovers
  handled index c a s =
      let was_listening = not c.is_connected in
      let (rc, c₁, s₁) = handle_event host c.event c s in
      elim (Bool-cases (code_eq rc ok)) [
        | inl e ↦
            let a₁ = record a { connections = set a.connections index c₁ } in
            combined index c was_listening c₁.is_connected a.connections a₁.connections _ refl
              (inr (c₁, refl, refl)) (rw e (succeeded ok was_listening c₁.is_connected a₁ s₁))
        | inr e ↦
            let (rc', connected, a', s') = recover host was_listening rc index c₁ a s₁ in
            combined index c was_listening connected a.connections a'.connections _ refl
              (recovered was_listening rc index c₁ a s₁)
              (rw e (succeeded rc' was_listening connected a' s'))
      ]

  kept_or_handled :
      (c : Connection) (a : Agent) (s : State host)
      → let (i, w₁) = os.wait_for_multiple_objects (get_handles a) s.world in
        let after = (handle_one_event host a s).2.connections in
        get_elem? a.connections i ≡ some c
        → (after ≡ a.connections)
          ⊎ (after ≡ (handle_connection host i c a (at host w₁ s)).0.connections)
  unfolding handle_one_event
  kept_or_handled c a s e = ground (arith, e)

  one_event_at :
      (a : Agent) (s : State host) (o : Option Connection)
      → let i = (os.wait_for_multiple_objects (get_handles a) s.world).0 in
        let after = (handle_one_event host a s).2.connections in
        get_elem? a.connections i ≡ o
        → (after ≡ a.connections)
          ⊎ ((c : Connection) × (o ≡ some c) × Affects i c a.connections after)
  unfolding handle_one_event
  one_event_at a s none e = inl (ground (arith, e))
  one_event_at a s (some c) e =
      let (i, w₁) = os.wait_for_multiple_objects (get_handles a) s.world in
      elim (kept_or_handled c a s e) [
        | inl kept ↦ inl kept
        | inr same ↦ inr (c, refl, rw same (handled i c a (at host w₁ s)))
      ]

  -- HandleOneEvent changes no connection but the one at the index that the wait reported: the
  -- connections stay as they are; or there is one at that index, and it is replaced in its place; or it
  -- had a browser, there are more connections than kMinNumListeningPipeInstances, and it is removed; or
  -- it had no browser, is replaced by one that has, and one connection is added behind all others.
  pub handle_one_event-Affects :
      (a : Agent) (s : State host)
      → let i = (os.wait_for_multiple_objects (get_handles a) s.world).0 in
        let after = (handle_one_event host a s).2.connections in
        (after ≡ a.connections)
        ⊎ ((c : Connection) × (get_elem? a.connections i ≡ some c)
            × Affects i c a.connections after)
  handle_one_event-Affects a s = one_event_at a s _ refl
