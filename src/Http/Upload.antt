-- ===== src/Http/Upload.antt =====
-- handler.go: the upload in one request, the probe of a file, and the two pages that lead to them. The
-- forms that net/http reads are arguments; temporary files are left out, their failures excepted.
pub mod Checked
mod Tests
use sharm.Common.{
  Bool, true, false, not, Option, none, some, List, [], ◌∷◌, Text, text, if◌then◌else◌,
}
use sharm.Domain.{Media}
use sharm.Domain.Errors.{ok, err}
use sharm.Domain.Errors
use sharm.Domain.Probe.{ProbeResult}
use sharm.MediaService.{list_media}
use sharm.Converter.{probe}
use sharm.Http.Validation.FileType.{validate_magic_bytes}
use sharm.Http.Exchange.{
  Request, upload_page, dashboard, probe_result, render, Exchange, Handler, writes, calling,
}
use sharm.Http.Media.{html}
use sharm.Http.Chunks.{step}
use sharm.Http.Chunks.Complete.{Service, failed_with, submit}

-- A file of a form: its name and its content.
abbrev pub FormFile : Type 0
FormFile = Text × Text

module _ (service : Service) (codecs : List Text) (r : Request) where
  open service use {detect_content_type}

  -- Upload, from its end to its beginning.
  unfoldable pub saved : FormFile → Errors.Result (Unit {0}) → Exchange → Exchange
  saved file (err e) = failed_with (text "Failed to save file") 500
  saved (name, content) (ok done) = submit service codecs r name content

  unfoldable pub opened : FormFile → Errors.Result (Unit {0}) → Exchange → Exchange
  unfolding saved
  opened file (err e) = failed_with (text "Failed to process upload") 500
  opened file (ok done) = step (saved file)

  unfoldable pub checked : FormFile → Errors.Result (Text × Bool) → Exchange → Exchange
  unfolding opened
  checked file (err e) = failed_with (text "Failed to validate file type") 500
  checked file (ok (mime, false)) = failed_with (text "File type not allowed") 400
  checked file (ok (mime, true)) = step (opened file)

  unfoldable pub with_form_file : Option FormFile → Exchange → Exchange
  unfolding checked
  with_form_file none = failed_with (text "Invalid file upload") 400
  with_form_file (some (name, content)) =
      calling (validate_magic_bytes detect_content_type content) (checked (name, content))

-- Upload, for a form that could be parsed or not, the file in it and its codecs.
unfoldable pub upload_handler : Service → Bool → Option FormFile → List Text → Handler
unfolding with_form_file
upload_handler service parsed file codecs r =
    if parsed then with_form_file service codecs r file else failed_with (text "File too large") 413

-- ProbeUpload, for the answers of ffprobe and the path of the temporary file.
unfoldable pub probed : Text → Errors.Result ProbeResult → Exchange → Exchange
probed name (err e) = failed_with (text "Failed to probe file") 500
probed name (ok result) = writes (html ∷ render (probe_result result name) ∷ [])

module _ (probe_of : Text → Errors.Result ProbeResult) (path : Text) where
  unfoldable pub copied_for_probe : Text → Errors.Result (Unit {0}) → Exchange → Exchange
  unfolding probed
  copied_for_probe name (err e) = failed_with (text "Failed to read file") 500
  copied_for_probe name (ok done) = calling (probe probe_of path) (probed name)

  unfoldable pub opened_for_probe : Text → Errors.Result (Unit {0}) → Exchange → Exchange
  unfolding copied_for_probe
  opened_for_probe name (err e) = failed_with (text "Failed to process file") 500
  opened_for_probe name (ok done) = step (copied_for_probe name)

  unfoldable pub probe_form_file : Option FormFile → Exchange → Exchange
  unfolding opened_for_probe
  probe_form_file none = failed_with (text "Invalid file upload") 400
  probe_form_file (some (name, content)) = step (opened_for_probe name)

  unfoldable pub probe_upload : Bool → Option FormFile → Handler
  unfolding probe_form_file
  probe_upload parsed file r =
      if parsed then probe_form_file file else failed_with (text "Invalid file upload") 400

-- Dashboard and UploadPage
abbrev or_empty : Errors.Result (List Media) → List Media
or_empty (err e) = []
or_empty (ok media) = media

unfoldable pub dashboard_handler : Text → Text → Handler
dashboard_handler domain version r =
    calling list_media
      (λ media. writes (html ∷ render (dashboard (or_empty media) domain version) ∷ []))

unfoldable pub upload_page_handler : Text → Handler
upload_page_handler version r = writes (html ∷ render (upload_page version) ∷ [])
