-- ===== src/Demo/Dump.antt =====
-- DumpEvent of demo/handler.h: the description of a request that the demonstration agent prints,
-- and the copy of a printed document that it saves.
use content_analysis_sdk.Prelude.{
  ℕ, ◌-◌, Bool, false, not, Option, none, some, [], ◌∷◌, ◌++◌, Text, codes, decimal, length, take,
  is_empty, leb, ltb, if◌then◌else◌, get_or_default, ◌≡◌, arith,
}
use content_analysis_sdk.Proto.{
  AnalysisConnector, Reason, ContentMetaData, ContentData, text_content, file_path, print_data,
}
use content_analysis_sdk.Windows.{Windows}
use content_analysis_sdk.Event.{Event}
use content_analysis_sdk.Demo.Output.{endl, streamed}
use content_analysis_sdk.PrintHandle.{
  ScopedPrintHandle, create_scoped_print_handle, delete_print_handle,
}

connector_name : Option AnalysisConnector → Text
connector_name (some AnalysisConnector.file_downloaded) = codes "download"
connector_name (some AnalysisConnector.file_attached) = codes "attach"
connector_name (some AnalysisConnector.bulk_data_entry) = codes "bulk-data-entry"
connector_name (some AnalysisConnector.print) = codes "print"
connector_name (some AnalysisConnector.file_transfer) = codes "file-transfer"
connector_name (some AnalysisConnector.data_copied) = codes "data-copied"
connector_name (some AnalysisConnector.analysis_connector_unspecified) = codes "<Unknown>"
connector_name none = codes "<Unknown>"

reason_name : Option Reason → Text
reason_name none = []
reason_name (some Reason.unknown) = codes "<Unknown>"
reason_name (some Reason.clipboard_paste) = codes "CLIPBOARD_PASTE"
reason_name (some Reason.drag_and_drop) = codes "DRAG_AND_DROP"
reason_name (some Reason.file_picker_dialog) = codes "FILE_PICKER_DIALOG"
reason_name (some Reason.print_preview_print) = codes "PRINT_PREVIEW_PRINT"
reason_name (some Reason.system_dialog_print) = codes "SYSTEM_DIALOG_PRINT"
reason_name (some Reason.normal_download) = codes "NORMAL_DOWNLOAD"
reason_name (some Reason.save_as_download) = codes "SAVE_AS_DOWNLOAD"
reason_name (some Reason.clipboard_copy) = codes "CLIPBOARD_COPY"

-- A field of `request_data`, if both are set.
abbrev meta_field : (ContentMetaData → Option Text) → Option ContentMetaData → Option Text
meta_field field none = none
meta_field field (some meta) = field meta

-- `file_path()` and `machine_user()`, if they are set.
abbrev path_of : Option ContentData → Option Text
path_of (some (file_path path)) = some path
path_of content = none

abbrev user_of : Option (Option (Option Text)) → Option Text
user_of (some (some user)) = user
user_of metadata = none

-- A line of the description.
line : Text → Text → Text
line label value = label ++ (value ++ endl)

-- `expires_at_str[expires_at_str.size() - 1] = 0`.
end_with_null : Text → Text
end_with_null [] = []
end_with_null (c ∷ []) = 0 ∷ []
end_with_null (c ∷ d ∷ text) = c ∷ end_with_null (d ∷ text)

-- `t - now`, as it is printed.
signed_difference : ℕ → ℕ → Text
signed_difference t now = if leb now t then decimal (t - now) else codes "-" ++ decimal (now - t)

-- What of a pasted text is printed.
pub shown : Text → Text
shown text = if ltb 50 (length text) then take 50 text ++ codes "..." else text

pasted_lines : Option ContentData → Text
unfolding line shown
pasted_lines (some (text_content text)) =
    let label =
      if ltb 50 (length text)
      then codes "  Pasted data (truncated): "
      else codes "  Pasted data: " in
    if is_empty text
    then []
    else line label (shown text)
      ++ line (codes "  Pasted data size (bytes): ") (decimal (length text))
pasted_lines content = []

abbrev printer_name : Option ContentMetaData → Option Text
printer_name none = none
printer_name (some meta) = elim meta.print_metadata [ none ↦ none | some name ↦ name ]

printer_line : Option Text → Text
unfolding line
printer_line none = line (codes "  No printer name in request") []
printer_line (some name) = line (codes "  Printer name: ") name

-- The description up to the lines for print data. `now` is the time, `received` and `expires_at` are
-- what `ctime` gives for it and for the time at which the request expires.
module _ (now : ℕ) (received : Text) where
  pub described : Text → Event → Text
  unfolding connector_name reason_name line end_with_null signed_difference pasted_lines
  described expires_at e =
      let request = e.request in
      let meta = request.request_data in
      let expires = get_or_default request.expires_at 0 in
      let reason = reason_name request.reason in
      streamed (
        codes "Received at: "
        ∷ received
        ∷ codes "Received from: pid="
        ∷ decimal e.browser_info.pid
        ∷ line (codes " path=") e.browser_info.binary_path
        ∷ line (codes "Request: ") (get_or_default request.request_token [])
        ∷ line (codes "  User action ID: ")
            (get_or_default request.user_action_id (codes "<No user action id>"))
        ∷ codes "  Expires at: "
        ∷ end_with_null expires_at
        ∷ codes " ("
        ∷ signed_difference expires now
        ∷ line (codes " seconds from now)") []
        ∷ line (codes "  Connector: ") (connector_name request.analysis_connector)
        ∷ (if is_empty reason then [] else line (codes "  Reason: ") reason)
        ∷ line (codes "  URL: ") (get_or_default (meta_field (λ m. m.url) meta) (codes "<No URL>"))
        ∷ line (codes "  Tab title: ")
            (get_or_default (meta_field (λ m. m.tab_title) meta) (codes "<No tab title>"))
        ∷ line (codes "  Filename: ")
            (get_or_default (meta_field (λ m. m.filename) meta) (codes "<No filename>"))
        ∷ line (codes "  Digest: ")
            (get_or_default (meta_field (λ m. m.digest) meta) (codes "<No digest>"))
        ∷ line (codes "  Filepath: ")
            (get_or_default (path_of request.content_data) (codes "None, bulk text entry or print"))
        ∷ line (codes "  Machine user: ")
            (get_or_default (user_of request.machine_user) (codes "<No machine user>"))
        ∷ line (codes "  Email: ")
            (get_or_default (meta_field (λ m. m.email) meta) (codes "<No email>"))
        ∷ pasted_lines request.content_data
        ∷ [])

-- Whether the request has print data that are to be saved.
abbrev pub saves : Text → Option ContentData → Bool
saves save_path (some (print_data d)) = not (is_empty save_path)
saves save_path content = false

module _ (os : Windows) where
  open os use {World, read_memory, opens_output}

  -- The bytes at `data()` that are written to the file, if that could be opened, and the end of the
  -- print handle's life; none where a pointer that is null or a size beyond the view ends the program.
  pub save_document : Text → Option ScopedPrintHandle → World → Option (Option Text × World)
  save_document save_path none w = none
  save_document save_path (some p) w =
      if opens_output save_path w
      then elim (read_memory p.mapped p.size w) [
        | none ↦ none
        | some bytes ↦ some (some bytes, delete_print_handle os p w)
      ]
      else some (none, delete_print_handle os p w)

  -- DumpEvent behind the text of the expiry: the text, what is saved in the file `save_path` if
  -- anything is, and the state; none where the program ends.
  pub dump_described : Text → Text → Event → World → Option (Text × Option Text × World)
  unfolding printer_line line save_document
  dump_described text save_path e w =
      let (made, w₁) = create_scoped_print_handle os e.request e.browser_info.pid w in
      let saved_lines =
        printer_line (printer_name e.request.request_data)
        ++ line (codes "  Print data saved to: ") save_path in
      if saves save_path e.request.content_data
      then elim (save_document save_path made w₁) [
        | none ↦ none
        | some (document, w₂) ↦ some (text ++ saved_lines, document, w₂)
      ]
      else some (text, none, w)

  -- DumpEvent, with `print_data_file_path_` as `save_path`. `ctime` gives the null pointer for a time
  -- that it cannot write, and a text is made of it all the same.
  pub dump_event :
      (ℕ → Option Text) → ℕ → Text → Text → Event → World → Option (Text × Option Text × World)
  unfolding dump_described described
  dump_event ctime now received save_path e w =
      elim (ctime (get_or_default e.request.expires_at 0)) [
        | none ↦ none
        | some expires_at ↦ dump_described (described now received expires_at e) save_path e w
      ]

  -- Without print data to save, DumpEvent makes no call of the operating system.
  pub dump_event_unsaved :
      (ctime : ℕ → Option Text) (now : ℕ) (received save_path expires_at : Text) (e : Event)
      (w : World)
      → ctime (get_or_default e.request.expires_at 0) ≡ some expires_at
      → saves save_path e.request.content_data ≡ false
      → dump_event ctime now received save_path e w
        ≡ some (described now received expires_at e, none, w)
  unfolding dump_event dump_described
  dump_event_unsaved ctime now received save_path expires_at e w written unsaved =
      ground (arith, written, unsaved)
