-- ===== src/Tests/Handles.antt =====
-- The handles of a client that connects.
use content_analysis_sdk.Prelude.{
  refl, true, false, some, [], ◌∷◌, ℕ, List, is_empty, ◌==◌, if◌then◌else◌, arith,
}
use content_analysis_sdk.Windows.{Windows, invalid_handle_value}
use content_analysis_sdk.Windows.Handles.{erase, TracksHandles}
use content_analysis_sdk.Client.{Config, create}
use content_analysis_sdk.Client.Balance.{Held, Owns, create-Owns}
use content_analysis_sdk.Tests.Fake.{World, fake, idle}

-- `outgoing` is the list of the open handles; opening gives fixed handles.
abbrev add : ℕ → World → World
add h w = record w { outgoing = h ∷ w.outgoing }

abbrev failed : ℕ → World → World
failed err w = record w { last_error = err }

abbrev tracking : Windows
tracking = record fake {
  close_handle = λ h w. record w { outgoing = erase h w.outgoing };
  open_thread_token = λ w. (some 50, add 50 w);
  open_process_token = λ w. (some 51, add 51 w);
  open_process = λ pid w. (40, add 40 w);
  nt_create_file = λ name h w. (0, 20, add 20 w);
  open_device = λ name h w. (0, 80, add 80 w);
  set_message_read_mode =
      λ h w. if h == invalid_handle_value then (false, failed 6 w) else (true, w);
  multi_byte_to_wide_char = λ text w. if is_empty text then ([], failed 1004 w) else (text, w);
}

abbrev open_handles : World → List ℕ
open_handles w = w.outgoing

tracking-TracksHandles : TracksHandles tracking open_handles
tracking-TracksHandles = record {
  closed = λ h w. refl;
  thread_token = λ w. refl;
  process_token = λ w. refl;
  user = λ h size w. refl;
  sid = λ u w. refl;
  freed = λ address w. refl;
  process = λ pid w. refl;
  image = λ h w. refl;
  found = λ w. refl;
  controls = λ w. refl;
  wide = λ text w. ground arith;
  created = λ name h w. (λ e. refl, λ e. cc e);
  valid = λ name h w e. refl;
  device = λ name h w. refl;
  waited = λ h name w. refl;
  mode = λ h w. ground arith;
  no_mode = λ w. refl;
  mode_error = λ h w e. ground (arith, e);
  wide_error = λ text w e. ground (arith, e);
  server = λ h w. refl;
  flushed = λ h w. refl;
}

abbrev config : Config
config = record { name = 9 ∷ []; user_specific = true }

-- The handle 3 is open at first.
abbrev one_open : World
one_open = record idle { outgoing = 3 ∷ [] }

create-Owns_example :
    Held
      (Owns tracking open_handles tracking-TracksHandles (3 ∷ []))
      (create tracking 1 config one_open)
create-Owns_example =
    create-Owns tracking open_handles tracking-TracksHandles 1 config one_open refl
