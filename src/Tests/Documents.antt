-- ===== src/Tests/Documents.antt =====
-- A run of the print handles.
use content_analysis_sdk.Prelude.{◌≡◌, refl, some, [], ◌∷◌}
use content_analysis_sdk.Proto.{ContentAnalysisRequest, print_data}
use content_analysis_sdk.PrintHandle.{
  create_and_drop, create_scoped_print_handle, duplicate_document, new_print_handle,
}
use content_analysis_sdk.PrintHandle.Balance.{TracksViews, create_and_drop_balance}
use content_analysis_sdk.Windows.{Windows}
use content_analysis_sdk.Windows.Handles.{erase}
use content_analysis_sdk.Tests.Fake.{World, fake, idle, request}

-- `outgoing` is the list of the open handles.
abbrev documents : Windows
documents = record fake {
  close_handle = λ h w. record w { outgoing = erase h w.outgoing };
  open_process_to_duplicate = λ pid w. (90, record w { outgoing = 90 ∷ w.outgoing });
  duplicate_handle = λ process h w. (91, record w { outgoing = 91 ∷ w.outgoing });
}

documents-TracksViews : TracksViews documents (λ w. w.outgoing) (λ w. w.views)
documents-TracksViews = record {
  opened = λ pid w. (refl, refl);
  duplicated = λ process h w. (refl, refl);
  viewed = λ h w. (refl, refl);
  closed = λ h w. (refl, refl);
}

abbrev printing : ContentAnalysisRequest
printing = record request {
  content_data = some (print_data (record { handle = some 5; size = some 3 }));
}

-- The handle 3 is open at first.
abbrev one_open : World
one_open = record idle { outgoing = 3 ∷ [] }

create_and_drop_balance_example :
    ((create_and_drop documents printing 77 one_open).outgoing ≡ 3 ∷ [])
    × ((create_and_drop documents printing 77 one_open).views ≡ 1)
unfolding create_scoped_print_handle duplicate_document new_print_handle
create_and_drop_balance_example =
    create_and_drop_balance documents (λ w. w.outgoing) (λ w. w.views) documents-TracksViews
      printing 77 one_open
