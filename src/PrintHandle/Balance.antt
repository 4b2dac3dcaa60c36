-- ===== src/PrintHandle/Balance.antt =====
-- The handles and the views that a print handle opens and closes.
use content_analysis_sdk.Prelude.{
  ◌∙◌, ℕ, suc, List, ◌∷◌, Bool-cases, inl, inr, ◌≡◌, none, some, Option, refl, arith, ◌==◌,
  if◌then◌else◌, true, false, Bool,
}
use content_analysis_sdk.Proto.{ContentAnalysisRequest}
use content_analysis_sdk.Windows.{Windows, null_handle}
use content_analysis_sdk.Windows.Handles.{erase, erase_newest}
use content_analysis_sdk.PrintHandle.{
  ScopedPrintHandle, shared_document, duplicate_document, create_scoped_print_handle,
  delete_print_handle, create_and_drop, drop_print_handle, new_print_handle,
}

-- `handles` are the open handles of this process and `views` counts its mapped views: OpenProcess and
-- DuplicateHandle open the handle that they give where they do not fail, MapViewOfFile adds a view, and
-- CloseHandle closes the handle that it is given.
pub record TracksViews (os : Windows) (handles : os.World → List ℕ) (views : os.World → ℕ)
    : Type 0 where
  pub opened :
      (pid : ℕ) (w : os.World)
      → let (h, w') = os.open_process_to_duplicate pid w in
        (handles w' ≡ (if h == null_handle then handles w else h ∷ handles w))
        × (views w' ≡ views w)
  pub duplicated :
      (process h : ℕ) (w : os.World)
      → let (dupe, w') = os.duplicate_handle process h w in
        (handles w' ≡ (if dupe == null_handle then handles w else dupe ∷ handles w))
        × (views w' ≡ views w)
  pub viewed :
      (h : ℕ) (w : os.World)
      → let (address, w') = os.map_view_of_file h w in
        (handles w' ≡ handles w) × (views w' ≡ (if address == 0 then views w else suc (views w)))
  pub closed :
      (h : ℕ) (w : os.World)
      → (handles (os.close_handle h w) ≡ erase h (handles w))
        × (views (os.close_handle h w) ≡ views w)

-- Closing the handle behind the newest one.
erase_older : (d p : ℕ) (hs : List ℕ) → erase p (d ∷ p ∷ hs) ≡ d ∷ hs
erase_older d p hs = elim (Bool-cases (p == d)) [
  | inl e ↦ ground (arith, e)
  | inr e ↦ ground (arith, e)
]

-- Whether a print handle was made, with its document mapped.
abbrev pub is_mapped : Option ScopedPrintHandle → Bool
is_mapped none = false
is_mapped (some p) = if p.mapped == 0 then false else true

module _ (os : Windows) (handles : os.World → List ℕ) (views : os.World → ℕ)
    (docs : TracksViews os handles views) where
  open docs use {opened, duplicated, viewed, closed}

  duplicate_balance :
      (handle size browser_pid : ℕ) (w : os.World)
      → let (made, w') = duplicate_document os handle size browser_pid w in
        (handles w' ≡ (elim made [ none ↦ handles w | some p ↦ p.handle ∷ handles w ]))
        × (views w' ≡ (if is_mapped made then suc (views w) else views w))
  unfolding duplicate_document new_print_handle
  duplicate_balance handle size browser_pid w =
      let p = os.open_process_to_duplicate browser_pid w in
      let d = os.duplicate_handle p.0 handle p.1 in
      let w₃ = os.close_handle p.0 d.1 in
      ground (
        arith,
        opened browser_pid w,
        duplicated p.0 handle p.1,
        closed p.0 d.1,
        viewed d.0 w₃,
        erase_newest p.0 (handles w),
        erase_older d.0 p.0 (handles w),
      )

  drop_balance :
      (made : Option ScopedPrintHandle) (w w₁ : os.World)
      → handles w₁ ≡ (elim made [ none ↦ handles w | some p ↦ p.handle ∷ handles w ])
      → (handles (drop_print_handle os made w₁) ≡ handles w)
        × (views (drop_print_handle os made w₁) ≡ views w₁)
  unfolding drop_print_handle delete_print_handle
  drop_balance none w w₁ h = (h, refl)
  drop_balance (some p) w w₁ h =
      ground (arith, h, closed p.handle w₁, erase_newest p.handle (handles w))

  shares :
      (request : ContentAnalysisRequest) (browser_pid : ℕ) (w : os.World) (handle size : ℕ)
      → shared_document request.content_data ≡ some (handle, size)
      → create_scoped_print_handle os request browser_pid w
        ≡ duplicate_document os handle size browser_pid w
  unfolding create_scoped_print_handle
  shares request browser_pid w handle size e = ground (arith, e)

  balance_of :
      (request : ContentAnalysisRequest) (browser_pid : ℕ) (w : os.World) (o : Option (ℕ × ℕ))
      → shared_document request.content_data ≡ o
      → let (made, w₁) = create_scoped_print_handle os request browser_pid w in
        (handles w₁ ≡ (elim made [ none ↦ handles w | some p ↦ p.handle ∷ handles w ]))
        × (views w₁ ≡ (if is_mapped made then suc (views w) else views w))
  unfolding create_scoped_print_handle
  balance_of request browser_pid w none e = ground (arith, e)
  balance_of request browser_pid w (some (handle, size)) e =
      rw (shares request browser_pid w handle size e) (duplicate_balance handle size browser_pid w)

  -- Where the operating system opens and closes handles and maps views as documented,
  -- CreateScopedPrintHandle and the destructor close exactly the handles that they open, so that the
  -- same handles are open as before, whatever fails between; but a view that was mapped
  -- stays mapped, so that every print request whose document can be mapped leaves one more view.
  pub create_and_drop_balance :
      (request : ContentAnalysisRequest) (browser_pid : ℕ) (w : os.World)
      → let made = (create_scoped_print_handle os request browser_pid w).0 in
        let w' = create_and_drop os request browser_pid w in
        (handles w' ≡ handles w) × (views w' ≡ (if is_mapped made then suc (views w) else views w))
  unfolding create_and_drop
  create_and_drop_balance request browser_pid w =
      let r = create_scoped_print_handle os request browser_pid w in
      let b = balance_of request browser_pid w _ refl in
      let d = drop_balance r.0 w r.1 b.0 in (d.0, d.1 ∙ b.1)
