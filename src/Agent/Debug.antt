-- ===== src/Agent/Debug.antt =====
-- AppendDebugString of AgentWin::Connection and DebugString of AgentWin (agent/src/agent_win.cc).
use content_analysis_sdk.Prelude.{ℕ, ◌+◌, List, [], ◌∷◌, ◌++◌, Text, codes, decimal}
use content_analysis_sdk.Connection.{Connection}
use content_analysis_sdk.Event.Debug.{shown_bool}
use content_analysis_sdk.Agent.{Agent}

module _ (show : ℕ → Text) where
  -- `show` is the text of a handle.
  pub append_debug_string : Connection → Text
  append_debug_string c =
      codes "{handle="
      ++ (show c.handle
          ++ (codes " connected="
              ++ (shown_bool c.is_connected
                  ++ (codes " pid="
                      ++ (decimal c.browser_info.pid
                          ++ (codes " rsize="
                              ++ (decimal c.read_size
                                  ++ (codes " fsize=" ++ (decimal c.final_size ++ codes "}")))))))))

  -- The connections from the index `i` on.
  append_connections : ℕ → List Connection → Text
  append_connections i [] = []
  append_connections i (c ∷ cs) =
      codes " conn@" ++ (decimal i ++ (append_debug_string c ++ append_connections (i + 1) cs))

  pub debug_string : Agent → Text
  unfolding append_connections
  debug_string a =
      codes "AgentWin{pipe=\""
      ++ (a.pipename
          ++ (codes "\" stop="
              ++ (show a.stop_event
                  ++ (append_connections 0 a.connections ++ (codes "}" ++ (0 ∷ []))))))
