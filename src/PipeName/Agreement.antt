-- ===== src/PipeName/Agreement.antt =====
-- The names that the agent and the client give to a pipe (common/utils_win.cc).
use content_analysis_sdk.Prelude.{
  Bool, true, false, Bool-cases, [], ◌++◌, ◌≡◌, refl, ◌⊎◌, inl, inr, arith, Text, is_empty, codes,
  append_assoc, if◌then◌else◌,
}
use content_analysis_sdk.Windows.{Windows}
use content_analysis_sdk.PipeName.{
  pipe_prefix_for_agent, pipe_prefix_for_client, administrators, build_pipe_name, get_user_sid,
  get_pipe_name_for_agent, get_pipe_name_for_client,
}

module _ (os : Windows) where
  open os use {World}

  -- The user's SID ends the name; where there is none, there is no name.
  user_name :
      (prefix base : Text) (w : World)
      → let (sid, w₁) = get_user_sid os w in
        build_pipe_name os prefix base true w
        ≡ (if is_empty sid then [] else prefix ++ (base ++ (codes "." ++ sid)), w₁)
  unfolding build_pipe_name
  user_name prefix base w =
      ground (arith, append_assoc prefix base (codes "." ++ (get_user_sid os w).0))

  protected_name :
      (prefix base : Text) (w : World)
      → build_pipe_name os prefix base false w ≡ (prefix ++ (administrators ++ base), w)
  unfolding build_pipe_name
  protected_name prefix base w = ground (arith, append_assoc prefix administrators base)

  -- An agent and a client with the same configuration, in the same state of the operating system,
  -- either both have no pipe name, or their names are the prefix of the agent and the prefix of the
  -- client, each followed by the same text; and finding them changes the state in the same way.
  pub get_pipe_name_for_client_lem :
      (base : Text) (user_specific : Bool) (w : World)
      → let (agent, w₁) = get_pipe_name_for_agent os base user_specific w in
        let (client, w₂) = get_pipe_name_for_client os base user_specific w in
        (w₁ ≡ w₂)
        × (((agent ≡ []) × (client ≡ []))
            ⊎ ((suffix : Text) × (agent ≡ pipe_prefix_for_agent ++ suffix)
                × (client ≡ pipe_prefix_for_client ++ suffix)))
  unfolding get_pipe_name_for_agent get_pipe_name_for_client
  get_pipe_name_for_client_lem base false w =
      let a = protected_name pipe_prefix_for_agent base w in
      let c = protected_name pipe_prefix_for_client base w in
      (rw (a, c) refl, inr (administrators ++ base, rw a refl, rw c refl))
  get_pipe_name_for_client_lem base true w =
      let a = user_name pipe_prefix_for_agent base w in
      let c = user_name pipe_prefix_for_client base w in
      let sid = (get_user_sid os w).0 in
      (
        rw (a, c) refl,
        elim (Bool-cases (is_empty sid)) [
          | inl e ↦ inl (rw (a, e) refl, rw (c, e) refl)
          | inr e ↦ inr (base ++ (codes "." ++ sid), rw (a, e) refl, rw (c, e) refl)
        ],
      )
