-- ===== src/PrintHandle.antt =====
-- agent/src/scoped_print_handle_win.cc, scoped_print_handle_win.h and scoped_print_handle_base.cc:
-- the printed document that the browser shares with the agent.
pub mod Balance
use content_analysis_sdk.Prelude.{ℕ, Option, none, some, ◌==◌, if◌then◌else◌, get_or_default}
use content_analysis_sdk.Proto.{ContentAnalysisRequest, ContentData, print_data, PrintData}
use content_analysis_sdk.Windows.{Windows, null_handle}

-- ScopedPrintHandleWin with the member of its base class.
pub record ScopedPrintHandle : Type 0 where
  pub size : ℕ
  pub mapped : ℕ
  pub handle : ℕ

-- The print data of a request that has them, with a handle: the handle and the size.
abbrev pub shared_document : Option ContentData → Option (ℕ × ℕ)
shared_document (some (print_data d)) = elim d.handle [
  | none ↦ none
  | some h ↦ some (h, get_or_default d.size 0)
]
shared_document c = none

module _ (os : Windows) where
  open os use {World, open_process_to_duplicate, duplicate_handle, map_view_of_file, close_handle}

  -- The constructor, with the handle and the size of its argument.
  unfoldable pub new_print_handle : ℕ → ℕ → World → ScopedPrintHandle × World
  new_print_handle handle size w =
      let (mapped, w₁) = map_view_of_file handle w in
      (record { size = size; mapped = mapped; handle = handle }, w₁)

  -- CreateScopedPrintHandle, behind the first test.
  unfoldable pub duplicate_document : ℕ → ℕ → ℕ → World → Option ScopedPrintHandle × World
  unfolding new_print_handle
  duplicate_document handle size browser_pid w =
      let (browser_process, w₁) = open_process_to_duplicate browser_pid w in
      let (dupe, w₂) = duplicate_handle browser_process handle w₁ in
      let w₃ = close_handle browser_process w₂ in
      let (made, w₄) = new_print_handle dupe size w₃ in
      if browser_process == null_handle
      then (none, w₁)
      else if dupe == null_handle
      then (none, w₃)
      else (some made, w₄)

  unfoldable pub create_scoped_print_handle :
      ContentAnalysisRequest → ℕ → World → Option ScopedPrintHandle × World
  create_scoped_print_handle request browser_pid w = elim (shared_document request.content_data) [
    | none ↦ (none, w)
    | some (handle, size) ↦ duplicate_document handle size browser_pid w
  ]

  -- The destructor. It closes the handle; nothing unmaps the view.
  pub delete_print_handle : ScopedPrintHandle → World → World
  delete_print_handle p w = close_handle p.handle w

  -- What happens to a print handle that goes out of scope: it is deleted where it is not null.
  pub drop_print_handle : Option ScopedPrintHandle → World → World
  drop_print_handle none w = w
  drop_print_handle (some p) w = delete_print_handle p w

  -- A caller that creates a print handle and lets it go out of scope.
  pub create_and_drop : ContentAnalysisRequest → ℕ → World → World
  create_and_drop request browser_pid w =
      let (made, w₁) = create_scoped_print_handle request browser_pid w in drop_print_handle made w₁
