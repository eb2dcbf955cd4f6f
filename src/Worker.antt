-- ===== src/Worker.antt =====
-- internal/service/worker.go: what a worker does with a job that it has claimed.
pub mod Convert
pub mod Process
pub mod Kept
pub mod Safety
pub mod Settled
pub mod Status
pub mod Jobs
mod Tests
use sharm.Common.{
  ℕ, Bool, true, false, Option, none, some, List, [], ◌∷◌, ◌++◌, Text, text, ◌==◌, text_eq,
  if◌then◌else◌,
}
use sharm.Golang.FilePath.{join}
use sharm.Domain.{Media, MediaType, MediaStatus, Variant, VariantStatus, Job, JobType, Codec}
use sharm.Domain.Errors
use sharm.Domain.Probe.{ProbeResult, dimensions}
use sharm.Domain.Variants.{mark_as_done}
use sharm.Store.Media.{get, update_status, update_done, update_probe_json}
use sharm.Store.Variants.{
  get_variant_by_media_and_codec, update_variant_status, update_variant_done,
}
use sharm.World.{
  Event, M, Outcome, ok, err, panic, pure, crash, ◌>>=◌, ◌>>◌, or_wrap, ignore, attempt, when, call,
  statement, query, write, publish, remove_file,
}
use sharm.Converter.{convert, thumbnail, probe}

abbrev pub is_pending : MediaStatus → Bool
is_pending MediaStatus.pending = true
is_pending _ = false

abbrev pub is_video : MediaType → Bool
is_video MediaType.video = true
is_video _ = false

-- string(status)
abbrev pub status_text : MediaStatus → Text
status_text MediaStatus.pending = text "pending"
status_text MediaStatus.processing = text "processing"
status_text MediaStatus.done = text "done"
status_text MediaStatus.failed = text "failed"

-- publishEvent, with the event bus that main.go always passes.
unfoldable pub publish_status : Text → MediaStatus → Text → M (Unit {0})
publish_status id status message =
    publish id (record { type = text "status"; status = status_text status; message = message })

-- The store's methods as calls to the database, each of which may fail.
abbrev pub store_get : Text → M Media
store_get id = call (query (get id))

abbrev pub store_get_variant : Text → Codec → M Variant
store_get_variant id codec = call (query (get_variant_by_media_and_codec id codec))

abbrev pub store_update_status : Text → MediaStatus → Text → M (Unit {0})
store_update_status id status message = call (write (λ _. update_status id status message))

abbrev pub store_update_done : Media → M (Unit {0})
store_update_done m = call (write (λ _. update_done m))

abbrev pub store_update_probe_json : Text → Text → M (Unit {0})
store_update_probe_json id json = call (write (λ _. update_probe_json id json))

abbrev pub store_update_variant_status : ℕ → VariantStatus → Text → M (Unit {0})
store_update_variant_status id status message =
    call (write (λ _. update_variant_status id status message))

abbrev pub store_update_variant_done : Variant → M (Unit {0})
store_update_variant_done v = call (write (λ _. update_variant_done v))

-- os.MkdirAll
abbrev pub mkdir_all : Text → M (Unit {0})
mkdir_all dir = call (pure tt)

abbrev pub size_or_zero : Option ℕ → ℕ
size_or_zero none = 0
size_or_zero (some n) = n

-- fileInfo.Size(), where fileInfo may be nil.
unfoldable pub size_or_crash : Option ℕ → M ℕ
size_or_crash none = crash
size_or_crash (some n) = pure n

-- The outside of a worker: what ffprobe says of a file, how large a file is, and the data directory.
pub record Files : Type 0 where
  pub probe_of : Text → Errors.Result ProbeResult
  pub size_of : Text → ℕ
  pub data_dir : Text

module _ (files : Files) where
  open files use {probe_of, size_of, data_dir}

  -- os.Stat, its error dropped.
  abbrev pub stat : Text → M (Option ℕ)
  stat path = attempt (call (pure (size_of path)))

  abbrev pub converted_dir : Text
  converted_dir = join data_dir (text "converted")

  abbrev pub thumb_path_of : Text → Text
  thumb_path_of id = join converted_dir (id ++ text "_thumb.jpg")

  unfoldable pub handle_legacy_convert : Job → Media → M (Unit {0})
  handle_legacy_convert job media = do
    (path, codec) ← or_wrap (text "convert") (convert media.original_path converted_dir media.id)
    result ← or_wrap (text "probe") (probe probe_of path)
    let (width, height) = dimensions result
    or_wrap (text "thumbnail") (thumbnail path (thumb_path_of media.id))
    info ← stat path
    size ← size_or_crash info
    or_wrap (text "update media done") (
        store_update_done
          (mark_as_done media path codec width height (thumb_path_of media.id) size))
    ignore (remove_file media.original_path)
    publish_status media.id MediaStatus.done []

  unfoldable pub handle_thumbnail : Job → M (Unit {0})
  handle_thumbnail job = do
    media ← or_wrap (text "get media") (store_get job.media_id)
    or_wrap (text "create converted directory") (mkdir_all converted_dir)
    or_wrap (text "thumbnail") (thumbnail media.original_path (thumb_path_of media.id))
    store_update_done (record media { thumb_path = thumb_path_of media.id })

  unfoldable pub handle_probe : Job → M (Unit {0})
  handle_probe job = do
    media ← or_wrap (text "get media") (store_get job.media_id)
    let source = if media.converted_path == [] then media.original_path else media.converted_path
    result ← or_wrap (text "probe") (probe probe_of source)
    let (width, height) = dimensions result
    store_update_done (record media { width = width; height = height })
