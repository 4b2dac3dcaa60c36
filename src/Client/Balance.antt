-- ===== src/Client/Balance.antt =====
-- The handles that Client::Create and the destructor of browser/src/client_win.cc open and close.
use content_analysis_sdk.Prelude.{
  ℕ, zero, suc, true, false, Option, none, some, List, [], ◌∷◌, ◌≡◌, refl, ap, ◌∙◌, arith, Text,
  is_empty, get_or_default, ◌==◌, Bool-cases, inl, inr, ◌⊎◌, take, drop, length,
}
use content_analysis_sdk.ResultCode.{error_success}
use content_analysis_sdk.Windows.{Windows, invalid_handle_value}
use content_analysis_sdk.Windows.Handles.{erase, erase_newest, TracksHandles}
use content_analysis_sdk.PipeName.{pipe_prefix_for_client, get_pipe_name_for_client}
use content_analysis_sdk.PipeName.Balance.{pipe_name-closes, process_path-closes}
use content_analysis_sdk.Client.{
  Client, Config, Outcome, returned, thrown, running, wait_for_pipe_availability, status_success,
  status_pipe_not_available, status_io_timeout, connect_loop, enter_message_mode, connect_to_pipe,
  map_outcome, shutdown, identify_agent, connected_or_shut, create, unicode_string,
}

-- What holds of a result, if there is one.
abbrev pub Held : {A : Type 0} → (A → Type 0) → Outcome A → Type 0
Held P (returned a) = P a
Held P thrown = Unit {0}
Held P running = Unit {0}

module _ {A B : Type 0} (os : Windows) where
  Held-map :
      (f : A → B) (P : A → Type 0) (Q : B → Type 0) (o : Outcome A)
      → ((a : A) → P a → Q (f a))
      → Held P o
      → Held Q (map_outcome os f o)
  Held-map f P Q (returned a) step h = step a h
  Held-map f P Q thrown step h = tt
  Held-map f P Q running step h = tt

Held-implies :
    {A : Type 0} (P Q : A → Type 0) (o : Outcome A) → ((a : A) → P a → Q a) → Held P o → Held Q o
Held-implies P Q (returned a) step h = step a h
Held-implies P Q thrown step h = tt
Held-implies P Q running step h = tt

module _ (os : Windows) (open_handles : os.World → List ℕ)
    (docs : TracksHandles os open_handles) where
  open docs use {
    closed, found, controls, wide, created, valid, device, waited, mode, no_mode, mode_error,
    wide_error, server, flushed,
  }

  available-closes :
      (path : List ℕ) (w : os.World)
      → open_handles (wait_for_pipe_availability os path w).1 ≡ open_handles w
  unfolding wait_for_pipe_availability
  available-closes path w =
      let w₁ = (os.find_nt_create_file w).1 in
      let w₂ = (os.find_nt_fs_control_file w₁).1 in
      let device_name = take (length pipe_prefix_for_client) path in
      let pipe_name = drop (length pipe_prefix_for_client) path in
      let (opened, h, w₃) = os.open_device device_name invalid_handle_value w₂ in
      let w₄ = (os.wait_for_pipe h pipe_name w₃).1 in
      ground (
        arith,
        found w,
        controls w₁,
        device device_name invalid_handle_value w₂,
        waited h pipe_name w₃,
        closed h w₄,
        erase_newest h (open_handles w),
      )

  -- The loop of ConnectToPipe ends with an open pipe, or with none and the handle as it was.
  abbrev Opens : ℕ → List ℕ → ℕ × ℕ × os.World → Type 0
  Opens h hs (status, h', w) =
      ((status == status_success) ≡ true)
        × (open_handles w ≡ h' ∷ hs)
        × ((h' == invalid_handle_value) ≡ false)
      ⊎ ((open_handles w ≡ hs) × (h' ≡ h))

  again :
      (h₁ h : ℕ) (hs₁ hs : List ℕ)
      → h₁ ≡ h
      → hs₁ ≡ hs
      → (r : ℕ × ℕ × os.World) → Opens h₁ hs₁ r
      → Opens h hs r
  again h₁ h hs₁ hs e f (status, h', w) (inl (ok, at_front, valid)) =
      inl (ok, at_front ∙ ap (λ l. h' ∷ l) f, valid)
  again h₁ h hs₁ hs e f (status, h', w) (inr (same, kept)) = inr (same ∙ f, kept ∙ e)

  loop-Opens :
      (rounds : ℕ) (name : List ℕ) (h : ℕ) (w : os.World)
      → Held (Opens h (open_handles w)) (connect_loop os rounds name h w)
  unfolding connect_loop
  loop-Opens zero name h w = tt
  loop-Opens (suc rounds) name h w =
      let (sts, h₁, w₁) = os.nt_create_file name h w in
      let (status, w₂) = wait_for_pipe_availability os name w₁ in
      elim (Bool-cases (sts == status_success)) [
        | inl e ↦ rw e (inl (e, (created name h w).0 e, valid name h w e))
        | inr e ↦
            let (kept, same) = (created name h w).1 e in
            let same₂ = available-closes name w₁ ∙ same in
            elim (Bool-cases (sts == status_pipe_not_available)) [
              | inl f ↦ elim (Bool-cases (status == status_io_timeout)) [
                | inl g ↦
                    rw (e, f, g)
                      (Held-implies (Opens h₁ (open_handles w₂)) (Opens h (open_handles w))
                        (connect_loop os rounds name h₁ w₂)
                        (again h₁ h (open_handles w₂) (open_handles w) kept same₂)
                        (loop-Opens rounds name h₁ w₂))
                | inr g ↦ rw (e, f, g) (inr (same₂, kept))
              ]
              | inr f ↦ rw (e, f) (inr (same, kept))
            ]
      ]

  -- ConnectToPipe ends with success and an open pipe, or with an error and nothing more open.
  abbrev Connects : List ℕ → ℕ × ℕ × os.World → Type 0
  Connects hs (err, h, w) =
      ((err == error_success) ≡ true)
        × (open_handles w ≡ h ∷ hs)
        × ((h == invalid_handle_value) ≡ false)
      ⊎ (((err == error_success) ≡ false)
          × (open_handles w ≡ hs)
          × ((h == invalid_handle_value) ≡ true))

  entered :
      (hs : List ℕ) (sts h : ℕ) (w : os.World)
      → erase invalid_handle_value hs ≡ hs
      → Opens invalid_handle_value hs (sts, h, w)
      → Connects hs (enter_message_mode os invalid_handle_value (sts, h, w))
  unfolding enter_message_mode
  entered hs sts h w never (inl (e, at_front, is_valid)) =
      elim (Bool-cases (os.set_message_read_mode h w).0) [
        | inl f ↦ rw (e, f) (inl (refl, mode h w ∙ at_front, is_valid))
        | inr f ↦
            let w₁ = (os.set_message_read_mode h w).1 in
            let gone = closed h w₁ ∙ (ap (erase h) (mode h w ∙ at_front) ∙ erase_newest h hs) in
            rw (e, f) (inr (mode_error h w f, gone, refl))
      ]
  entered hs sts h w never (inr (same, kept)) = elim (Bool-cases (sts == status_success)) [
    | inl e ↦
        let w₁ = (os.set_message_read_mode invalid_handle_value w).1 in
        let gone =
          closed invalid_handle_value w₁
          ∙ (ap (erase invalid_handle_value) (mode invalid_handle_value w ∙ same) ∙ never) in
        rw (kept, e, no_mode w) (inr (mode_error invalid_handle_value w (no_mode w), gone, refl))
    | inr e ↦ rw e (inr (refl, same, refl))
  ]

  connected :
      (rounds : ℕ) (pipename : Text) (w : os.World)
      → erase invalid_handle_value (open_handles w) ≡ open_handles w
      → Held (Connects (open_handles w)) (connect_to_pipe os rounds pipename invalid_handle_value w)
  unfolding connect_to_pipe
  connected rounds pipename w never =
      let w₁ = (os.find_nt_create_file w).1 in
      let (name, w₂) = os.multi_byte_to_wide_char pipename w₁ in
      let same = wide pipename w₁ ∙ found w in
      elim (Bool-cases (os.find_nt_create_file w).0) [
        | inr e ↦ rw e (inr (refl, found w, refl))
        | inl e ↦ elim (Bool-cases (is_empty name)) [
          | inl f ↦ rw (e, f) (inr (wide_error pipename w₁ f, same, refl))
          | inr f ↦
              let opening = loop-Opens rounds (unicode_string name) invalid_handle_value w₂ in
              rw (e, f)
                (Held-map os (enter_message_mode os invalid_handle_value)
                  (Opens invalid_handle_value (open_handles w₂)) (Connects (open_handles w))
                  (connect_loop os rounds (unicode_string name) invalid_handle_value w₂)
                  (λ r o. entered (open_handles w) r.0 r.1 r.2 never (rw⁻¹ same o)) opening)
        ]
      ]

  -- What Create returns: a client with its pipe open and nothing else, or nothing open.
  abbrev pub Owns : List ℕ → Option Client × os.World → Type 0
  Owns hs (none, w) = open_handles w ≡ hs
  Owns hs (some c, w) = (open_handles w ≡ c.pipe ∷ hs) × (open_handles (shutdown os c w).1 ≡ hs)

  shut :
      (hs : List ℕ) (c : Client) (w : os.World)
      → open_handles w ≡ c.pipe ∷ hs
      → (c.pipe == invalid_handle_value) ≡ false
      → open_handles (shutdown os c w).1 ≡ hs
  unfolding shutdown
  shut hs c w at_front valid =
      let w₁ = os.flush_file_buffers c.pipe w in
      let gone =
        closed c.pipe w₁
        ∙ (ap (erase c.pipe) (flushed c.pipe w ∙ at_front) ∙ erase_newest c.pipe hs) in
      rw valid gone

  identified :
      (hs : List ℕ) (c : Client) (err h : ℕ) (w : os.World) (pid : Option ℕ)
      → (os.server_process_id h w).0 ≡ pid
      → Connects hs (err, h, w)
      → Owns hs (connected_or_shut os (identify_agent os c (err, h, w)))
  unfolding identify_agent shutdown
  identified hs c err h w pid e (inr (failed, same, invalid)) = rw failed (rw invalid same)
  identified hs c err h w none e (inl (fine, at_front, valid)) =
      let w₁ = (os.server_process_id h w).1 in
      rw (fine, e) (shut hs (record c { pipe = h }) w₁ (server h w ∙ at_front) valid)
  identified hs c err h w (some p) e (inl (fine, at_front, valid)) =
      let w₁ = (os.server_process_id h w).1 in
      let agent = get_or_default (os.server_process_id h w).0 0 in
      let at_front₂ = process_path-closes os open_handles docs agent w₁ ∙ (server h w ∙ at_front) in
      rw (fine, e) (at_front₂, shut hs _ _ at_front₂ valid)

  -- Client::Create leaves open what it opened only as the pipe of the client that it returns: whenever
  -- it returns, on whatever path, either there is no client and the handles that are open are those of
  -- before, or there is one and only its pipe is open beside them, which the destructor then closes.
  -- The operating system is to open, close and refuse handles as documented, and
  -- INVALID_HANDLE_VALUE is not among the handles that are open at first.
  pub create-Owns :
      (rounds : ℕ) (config : Config) (w : os.World)
      → erase invalid_handle_value (open_handles w) ≡ open_handles w
      → Held (Owns (open_handles w)) (create os rounds config w)
  unfolding create
  create-Owns rounds config w never =
      let c : Client = record {
        config = config;
        agent_info = record { pid = 0; binary_path = [] };
        pipe = invalid_handle_value;
      } in
      let (pipename, w₁) = get_pipe_name_for_client os config.name config.user_specific w in
      let same = pipe_name-closes os open_handles docs config.name config.user_specific w in
      elim (Bool-cases (is_empty pipename)) [
        | inl e ↦ rw e same
        | inr e ↦
            let connecting = connect_to_pipe os rounds pipename invalid_handle_value w₁ in
            rw e (
              Held-map os (λ r. connected_or_shut os (identify_agent os c r))
                (Connects (open_handles w₁)) (Owns (open_handles w)) connecting
                (λ r o. rw⁻¹ same (identified (open_handles w₁) c r.0 r.1 r.2 _ refl o))
                (connected rounds pipename w₁ (rw same never)))
      ]
