-- ===== src/Http/Chunks/Complete.antt =====
-- handler.go, CompleteUpload: the chunks are put together and handed to the service. The temporary
-- file that they are put together in is left out, its failures excepted.
use sharm.Common.{
  ℕ, zero, suc, ℤ, pos, negsuc, Bool, true, false, not, ◌||◌, Option, none, some, List, [], ◌∷◌,
  ◌++◌, Text, text, ◌==◌, text_eq, if◌then◌else◌, Map, ltb,
}
use sharm.Golang.Decimal.{parse_int, format_int}
use sharm.Golang.Strings.{contains}
use sharm.Domain.{Media, MediaType, Codec, av1, h264, opus}
use sharm.Domain.Errors.{Error, ok, err, message}
use sharm.Domain.Errors
use sharm.Domain.Extensions.{detect_media_type}
use sharm.World.{M, pure, ◌>>=◌, attempt, call}
use sharm.Http.Validation.FileType.{validate_magic_bytes}
use sharm.Http.Exchange.{
  Request, error_inline, set_header, write_header, render, Exchange, Handler, writes, calling,
}
use sharm.Http.Chunks.{validate_upload_id, refuse, step, remove_chunks}

-- What the handler takes from outside: the service's Upload of a file with its content, net/http's
-- DetectContentType, and the number that strconv.Atoi gives beside its error.
pub record Service : Type 0 where
  pub upload : Text → Text → ℤ → MediaType → List Codec → ℤ → M Media
  pub detect_content_type : Text → Text
  pub atoi_value : Text → ℤ

pub data Assembled : Type 0 where
  whole : Text → Assembled
  missing : ℕ → Assembled
  broken : Assembled

-- The loop over the chunks: each is opened and copied.
unfoldable pub assemble : Map ℕ Text → ℕ → ℕ → Text → M Assembled
assemble chunks i zero content = pure (whole content)
assemble chunks i (suc n) content = attempt (call (pure tt)) >>= λ opened. elim opened [
  | none ↦ pure (missing i)
  | some o ↦ elim (chunks i) [
    | none ↦ pure (missing i)
    | some chunk ↦ attempt (call (pure tt)) >>= λ copied. elim copied [
      | none ↦ pure broken
      | some c ↦ assemble chunks (suc i) n (content ++ chunk)
    ]
  ]
]

unfoldable pub known_codecs : List Text → List Codec
known_codecs [] = []
known_codecs (c ∷ cs) =
    let rest = known_codecs cs in if c == av1 || c == h264 || c == opus then c ∷ rest else rest

abbrev pub or_week : Option ℤ → ℤ
or_week none = pos 7
or_week (some days) = days

abbrev pub failed_with : Text → ℕ → Exchange → Exchange
failed_with text_of status = writes (
    set_header (text "Content-Type") (text "text/html; charset=utf-8")
    ∷ write_header status
    ∷ render (error_inline text_of)
    ∷ [])

unfoldable pub upload_message : Text → Text
upload_message e =
    if contains e (text "no space left")
    then text "Upload failed: disk full"
    else if contains e (text "permission denied")
    then text "Upload failed: permission error"
    else text "Upload failed"

unfoldable pub uploaded : Errors.Result Media → Exchange → Exchange
unfolding upload_message
uploaded (err e) = failed_with (upload_message (message e)) 500
uploaded (ok media) = writes (set_header (text "HX-Redirect") (text "/") ∷ write_header 200 ∷ [])

module _ (service : Service) (codecs : List Text) (r : Request) where
  open service use {upload, detect_content_type, atoi_value}

  -- The call of the service, for a file of this name and content.
  unfoldable pub submit : Text → Text → Exchange → Exchange
  unfolding uploaded known_codecs
  submit filename content =
      calling
        (upload filename content (or_week (parse_int (r.form_value (text "retention"))))
          (detect_media_type filename) (known_codecs codecs)
          (atoi_value (r.form_value (text "fps"))))
        uploaded

  -- From the end of the handler to its beginning, for what was put together.
  unfoldable pub hand_over : Text → Exchange → Exchange
  unfolding submit
  hand_over content = submit (r.form_value (text "filename")) content

  unfoldable pub validated : Text → Errors.Result (Text × Bool) → Exchange → Exchange
  unfolding hand_over
  validated content (err e) = refuse (text "Failed to validate file type") 500
  validated content (ok (mime, false)) = failed_with (text "File type not allowed") 400
  validated content (ok (mime, true)) = hand_over content

  unfoldable pub rewound : Text → Errors.Result (Unit {0}) → Exchange → Exchange
  unfolding validated
  rewound content (err e) = refuse (text "Server error") 500
  rewound content (ok done) =
      calling (validate_magic_bytes detect_content_type content) (validated content)

  unfoldable pub assembled : Errors.Result Assembled → Exchange → Exchange
  unfolding rewound
  assembled (err e) = refuse (text "Server error") 500
  assembled (ok broken) = refuse (text "Server error") 500
  assembled (ok (missing i)) = refuse (text "Missing chunk " ++ format_int i) 400
  assembled (ok (whole content)) = step (rewound content)

  -- The temporary file is there or not.
  unfoldable pub with_file : Text → ℕ → Errors.Result (Unit {0}) → Exchange → Exchange
  unfolding assembled
  with_file id total (err e) x = refuse (text "Server error") 500 x
  with_file id total (ok done) x = calling (assemble (x.chunks id) 0 total []) assembled x

  -- What comes after the checks; the directory of the chunks is removed at the end.
  unfoldable pub complete : Text → ℕ → Exchange → Exchange
  unfolding with_file
  complete id total x = remove_chunks id (step (with_file id total) x)

  unfoldable pub with_total : Text → Option ℤ → Exchange → Exchange
  unfolding complete
  with_total id none = refuse (text "Invalid totalChunks") 400
  with_total id (some (negsuc n)) = refuse (text "Invalid totalChunks") 400
  with_total id (some (pos total)) =
      if ltb total 1
      then refuse (text "Invalid totalChunks") 400
      else if ltb 20000 total
      then refuse (text "Too many chunks") 400
      else complete id total

-- CompleteUpload, for a form that could be parsed or not and the codecs in it.
unfoldable pub complete_upload : Service → Bool → List Text → Handler
unfolding with_total
complete_upload service parsed codecs r =
    let id = r.form_value (text "uploadId") in
    let total = r.form_value (text "totalChunks") in
    if not parsed
    then refuse (text "Invalid request") 400
    else if id == [] || r.form_value (text "filename") == [] || total == []
    then refuse (text "Missing required fields") 400
    else if not (validate_upload_id id)
    then refuse (text "Invalid uploadId format") 400
    else with_total service codecs r id (parse_int total)
