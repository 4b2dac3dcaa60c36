-- ===== src/Event/Debug.antt =====
-- DebugString of ContentAnalysisEventWin (agent/src/event_win.cc).
use content_analysis_sdk.Prelude.{
  ℕ, Bool, [], ◌∷◌, ◌++◌, Text, codes, decimal, get_or_default, if◌then◌else◌,
}
use content_analysis_sdk.Event.{Event}

-- `state.setf(std::ios::boolalpha)`.
abbrev pub shown_bool : Bool → Text
shown_bool b = if b then codes "true" else codes "false"

-- `show` is the text of a handle, which the standard leaves to the implementation. `std::ends` is a
-- NUL.
pub debug_string : (ℕ → Text) → Event → Text
debug_string show e =
    codes "ContentAnalysisEventWin{handle="
    ++ (show e.pipe
        ++ (codes " pid="
            ++ (decimal e.browser_info.pid
                ++ (codes " rtoken="
                    ++ (get_or_default e.request.request_token []
                        ++ (codes " sent="
                            ++ (shown_bool e.response_sent ++ (codes "}" ++ (0 ∷ [])))))))))
