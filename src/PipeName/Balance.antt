-- ===== src/PipeName/Balance.antt =====
-- common/utils_win.cc closes every handle that it opens: GetUserSID and with it BuildPipeName, and
-- GetProcessPath.
use content_analysis_sdk.Prelude.{
  ℕ, Bool, Option, none, some, List, [], ◌∷◌, ◌≡◌, refl, ap, ◌∙◌, arith, Text, ◌==◌, if◌then◌else◌,
}
use content_analysis_sdk.ResultCode.{error_insufficient_buffer}
use content_analysis_sdk.Windows.{Windows}
use content_analysis_sdk.Windows.Handles.{erase, erase_newest, TracksHandles}
use content_analysis_sdk.PipeName.{
  sid_of_token, get_user_sid, build_pipe_name, get_pipe_name_for_client, get_process_path,
}

module _ (os : Windows) (open_handles : os.World → List ℕ)
    (docs : TracksHandles os open_handles) where
  open docs use {closed, thread_token, process_token, user, sid, freed, process, image}

  close_newest :
      (h : ℕ) (w : os.World) (hs : List ℕ)
      → open_handles w ≡ h ∷ hs
      → open_handles (os.close_handle h w) ≡ hs
  close_newest h w hs e = closed h w ∙ (ap (erase h) e ∙ erase_newest h hs)

  -- The last part of GetUserSID, which closes the token on each of its paths.
  text_of_user : ℕ → Option ℕ → os.World → Text × os.World
  text_of_user handle none w = ([], os.close_handle handle w)
  text_of_user handle (some u) w =
      let (sid, w₁) = os.convert_sid_to_string u w in
      elim sid [
        | none ↦ ([], os.close_handle handle w₁)
        | some (address, text) ↦ (text, os.close_handle handle (os.local_free address w₁))
      ]

  text_of_sid-closes :
      (handle u : ℕ) (w : os.World) (hs : List ℕ) (text : Option (ℕ × Text))
      → (os.convert_sid_to_string u w).0 ≡ text
      → open_handles w ≡ handle ∷ hs
      → open_handles (text_of_user handle (some u) w).1 ≡ hs
  unfolding text_of_user
  text_of_sid-closes handle u w hs none e h =
      let w₁ = (os.convert_sid_to_string u w).1 in
      ground (arith, e, close_newest handle w₁ hs (sid u w ∙ h))
  text_of_sid-closes handle u w hs (some (address, text)) e h =
      let w₁ = (os.convert_sid_to_string u w).1 in
      let freed' = freed address w₁ ∙ (sid u w ∙ h) in
      ground (arith, e, close_newest handle (os.local_free address w₁) hs freed')

  text_of_user-closes :
      (handle : ℕ) (user' : Option ℕ) (w : os.World) (hs : List ℕ)
      → open_handles w ≡ handle ∷ hs
      → open_handles (text_of_user handle user' w).1 ≡ hs
  unfolding text_of_user
  text_of_user-closes handle none w hs h = close_newest handle w hs h
  text_of_user-closes handle (some u) w hs h = text_of_sid-closes handle u w hs _ refl h

  -- The length that the first call of GetTokenInformation asks for.
  size_for : ℕ → os.World → ℕ
  size_for handle w =
      let (user, needed, w₁) = os.token_user handle 0 w in
      elim user [
        | some u ↦ 0
        | none ↦ if os.get_last_error w₁ == error_insufficient_buffer then needed else 0
      ]

  sid_of_token_lem :
      (handle : ℕ) (w : os.World) (user' : Option ℕ)
      → let (read, needed, w₂) =
          os.token_user handle (size_for handle w) (os.token_user handle 0 w).2 in
        read ≡ user' → sid_of_token os handle w ≡ text_of_user handle user' w₂
  unfolding sid_of_token text_of_user size_for
  sid_of_token_lem handle w none e = ground (arith, e)
  sid_of_token_lem handle w (some u) e = rw (e, sid_of_token) refl

  sid_of_token-closes :
      (handle : ℕ) (w : os.World) (hs : List ℕ)
      → open_handles w ≡ handle ∷ hs
      → open_handles (sid_of_token os handle w).1 ≡ hs
  sid_of_token-closes handle w hs h =
      let w₁ = (os.token_user handle 0 w).2 in
      let size = size_for handle w in
      let (read, needed, w₂) = os.token_user handle size w₁ in
      rw (sid_of_token_lem handle w read refl)
        (text_of_user-closes handle read w₂ hs (user handle size w₁ ∙ (user handle 0 w ∙ h)))

  user_sid_by :
      (w : os.World) (thread process : Option ℕ)
      → (os.open_thread_token w).0 ≡ thread
      → (os.open_process_token (os.open_thread_token w).1).0 ≡ process
      → open_handles (get_user_sid os w).1 ≡ open_handles w
  unfolding get_user_sid
  user_sid_by w (some h) process e f =
      let w₁ = (os.open_thread_token w).1 in
      ground (arith, e, sid_of_token-closes h w₁ (open_handles w), thread_token w)
  user_sid_by w none none e f =
      let w₁ = (os.open_thread_token w).1 in ground (arith, e, f, thread_token w, process_token w₁)
  user_sid_by w none (some h) e f =
      let w₁ = (os.open_thread_token w).1 in
      let w₂ = (os.open_process_token w₁).1 in
      ground
        (arith, e, f, sid_of_token-closes h w₂ (open_handles w), thread_token w, process_token w₁)

  pub pipe_name-closes :
      (base : Text) (user_specific : Bool) (w : os.World)
      → open_handles (get_pipe_name_for_client os base user_specific w).1 ≡ open_handles w
  unfolding get_pipe_name_for_client build_pipe_name
  pipe_name-closes base user_specific w = ground (arith, user_sid_by w _ _ refl refl)

  pub process_path-closes :
      (pid : ℕ) (w : os.World) → open_handles (get_process_path os pid w).1 ≡ open_handles w
  unfolding get_process_path
  process_path-closes pid w =
      let (h, w₁) = os.open_process pid w in
      let w₂ = (os.query_process_image_name h w₁).1 in
      ground (arith, process pid w, image h w₁, closed h w₂, erase_newest h (open_handles w))
