-- ===== src/Tests/Connections.antt =====
-- Runs of connections.
use content_analysis_sdk.Prelude.{◌+◌, ◌≡◌, refl, true, false, some, [], ◌∷◌, inl, inr, arith}
use content_analysis_sdk.ResultCode.{error_to_result_code}
use content_analysis_sdk.Windows.{invalid_handle_value}
use content_analysis_sdk.PipeName.{get_process_path}
use content_analysis_sdk.Host.{State, cancel_requests}
use content_analysis_sdk.Connection.{
  resize, overwrite, receive, at, reset_internal, delete_connection, obtain_pipe, reset_and_connect,
}
use content_analysis_sdk.Connection.Reading.{
  handle_event, handle_message, dispatch, call_handler, on_read_file, queue_read_file, continue,
  accept, build_browser_info,
}
use content_analysis_sdk.Connection.Reassembly.Message.{feed, handle_event_reassembles}
use content_analysis_sdk.Connection.Sessions.{
  connects, disconnects, handle_event_connected, handle_event_listening, unidentified_disconnects,
}
use content_analysis_sdk.Connection.Resetting.{reset_internal_leaks}
use content_analysis_sdk.Tests.Fake.{fake, idle, host, failing, listener, reader, reader-Holds}

-- Six bytes for a buffer of four: a read that fills it, then the rest.
abbrev two_reads : State host
two_reads = record {
  world = record idle {
    reads =
        record { success = false; bytes = 1 ∷ 2 ∷ 3 ∷ 4 ∷ []; error = 234 }
        ∷ record { success = true; bytes = 5 ∷ 6 ∷ []; error = 0 }
        ∷ [];
  };
  calls = [];
}

-- The handler gets the six bytes as one message.
delivered :
    (let (c, s) = feed host ((1 ∷ 2 ∷ 3 ∷ 4 ∷ []) ∷ []) reader two_reads in
      (handle_event host c.event c s).2.calls)
    ≡ cancel_requests (record { user_action_id = some (1 ∷ 2 ∷ 3 ∷ 4 ∷ 5 ∷ 6 ∷ []) }) ∷ []
unfolding handle_event continue on_read_file call_handler handle_message dispatch queue_read_file
    resize overwrite error_to_result_code
delivered = refl

handle_event_reassembles_example :
    let (c, s) = feed host ((1 ∷ 2 ∷ 3 ∷ 4 ∷ []) ∷ []) reader two_reads in
    let w₁ = (fake.read_result c.event s.world).2 in
    let d = record (receive (5 ∷ 6 ∷ []) c) { final_size = 6 } in
    let (rc, s') = handle_message host d (1 ∷ 2 ∷ 3 ∷ 4 ∷ 5 ∷ 6 ∷ []) (at host w₁ s) in
    (s.calls ≡ []) × (handle_event host c.event c s ≡ continue host (rc, d, s'))
unfolding handle_event continue on_read_file queue_read_file resize overwrite error_to_result_code
handle_event_reassembles_example =
    handle_event_reassembles host ((1 ∷ 2 ∷ 3 ∷ 4 ∷ []) ∷ []) (5 ∷ 6 ∷ []) reader two_reads
      reader-Holds ((refl, refl, refl, refl, omega arith, inr (inl refl)), tt)
      (refl, refl, omega arith) (omega arith)

abbrev one_read : State host
one_read = record {
  world = record idle { reads = record { success = true; bytes = 5 ∷ 6 ∷ []; error = 0 } ∷ [] };
  calls = [];
}

handle_event_connected_example :
    let (rc, c', s') = handle_event host 12 reader (record one_read { world = idle }) in
    (connects s'.calls ≡ 0) × (disconnects s'.calls ≡ 1) × (c'.is_connected ≡ false)
unfolding handle_event continue on_read_file error_to_result_code
handle_event_connected_example =
    handle_event_connected host 12 reader (record one_read { world = idle }) refl refl

handle_event_listening_example :
    let (rc, c', s') = handle_event host 11 listener one_read in
    (connects s'.calls ≡ 1) × (disconnects s'.calls + 1 ≡ 1)
unfolding handle_event continue accept build_browser_info get_process_path queue_read_file
    error_to_result_code
handle_event_listening_example = handle_event_listening host 11 listener one_read refl refl

abbrev failing_read : State failing
failing_read = record { world = one_read.world; calls = [] }

unidentified_disconnects_example :
    (connects (handle_event failing 11 listener failing_read).2.calls ≡ 0)
    × (disconnects (handle_event failing 11 listener failing_read).2.calls ≡ 1)
unfolding build_browser_info
unidentified_disconnects_example =
    unidentified_disconnects failing 11 listener failing_read refl refl refl (λ e. cc e)

-- The pipe 20 of the listener is not closed.
reset_internal_leaks_example :
    let (rc, c, s) = reset_internal failing (9 ∷ []) false false listener failing_read in
    (c.handle ≡ invalid_handle_value)
    × (s.world ≡ record failing_read.world { last_error = 6 })
    × ((delete_connection failing c s).world ≡ record failing_read.world { last_error = 6 })
unfolding reset_internal obtain_pipe reset_and_connect error_to_result_code
reset_internal_leaks_example =
    reset_internal_leaks failing (9 ∷ []) false false listener failing_read refl refl (λ e. cc e)
