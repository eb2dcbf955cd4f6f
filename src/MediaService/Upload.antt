-- ===== src/MediaService/Upload.antt =====
-- internal/service/media.go, Upload: a file becomes a media, with its variants and its jobs. What the
-- file system does beside failing is not modelled, the removal of files excepted.
use sharm.Common.{
  pos, ℕ, ℤ, Bool, true, false, not, ◌||◌, ◌&&◌, Option, none, some, List, [], ◌∷◌, ◌++◌, Text,
  text, ◌==◌, text_eq, any, length, take, ltb, if◌then◌else◌,
}
use sharm.Golang.FilePath.{join, base}
use sharm.Golang.Strings.{contains}
use sharm.Domain.{Media, MediaType, MediaStatus, Codec, JobType, h264}
use sharm.Domain.Errors.{Error, wrapped, message}
use sharm.Domain.Errors
use sharm.Domain.Probe.{ProbeResult, dimensions}
use sharm.Domain.Variants.{mark_as_done}
use sharm.Store.Media.{save, update_done}
use sharm.Store.Variants.{save_variant}
use sharm.Store.Jobs.{enqueue}
use sharm.World.{
  World, M, Outcome, ok, err, panic, pure, throw, crash, ◌>>=◌, ◌>>◌, or_wrap, ignore, attempt,
  call, statement, write, remove_file, clock,
}
use sharm.Converter.{probe}

-- if err != nil { … }: the error is handled by what follows it.
abbrev pub handle_error : {A : Type 0} → Outcome A × World → (Error → M A) → Outcome A × World
handle_error (ok a, w) f = (ok a, w)
handle_error (err e, w) f = f e w
handle_error (panic, w) f = (panic, w)

unfoldable pub or_else : {A : Type 0} → M A → (Error → M A) → M A
or_else m f w = handle_error (m w) f

-- A step of the file system, which may fail.
abbrev pub file_step : M (Unit {0})
file_step = call (pure tt)

unfoldable pub is_cross_device_error : Error → Bool
is_cross_device_error e =
    contains (message e) (text "invalid cross-device link")
    || contains (message e) (text "cross-device")

unfoldable pub copy_file : M (Unit {0})
copy_file = do
  or_wrap (text "failed to open source file") file_step
  or_wrap (text "failed to create destination file") file_step
  or_wrap (text "failed to copy file contents") file_step
  or_wrap (text "failed to stat source file") file_step
  or_wrap (text "failed to set file permissions") file_step

-- os.Rename, and the copy in its place.
unfoldable pub move_file : Text → M (Unit {0})
unfolding or_else is_cross_device_error copy_file
move_file source = or_else file_step (λ e.
    if is_cross_device_error e
    then (do or_wrap (text "failed to copy upload") copy_file; remove_file source)
    else throw (wrapped (text "failed to save upload") e))

-- generateID, of what the source of randomness gives: none where it fails.
unfoldable pub generate_id : Option Text → M Text
generate_id none = crash
generate_id (some id) = pure id

-- NewMedia, made at `now`.
unfoldable pub new_media : Text → MediaType → Text → Text → ℤ → ℕ → ℕ → Media
new_media id type name path days now expires = record {
  id = id;
  type = type;
  original_name = name;
  original_path = path;
  converted_path = [];
  status = MediaStatus.pending;
  codec = [];
  error_message = [];
  retention_days = days;
  file_size = 0;
  width = 0;
  height = 0;
  thumb_path = [];
  created_at = now;
  expires_at = expires;
  variants = [];
  probe_json = [];
}

abbrev max_probe_json : ℕ
max_probe_json = 1048576

-- What a probe of the file adds to the media.
unfoldable pub with_probe : Media → Option ProbeResult → Media
with_probe media none = media
with_probe media (some p) =
    let (width, height) = dimensions p in
    let json =
      if ltb max_probe_json (length p.raw_json)
      then take max_probe_json p.raw_json
      else p.raw_json in
    record media { probe_json = json; width = width; height = height }

abbrev pub is_image : MediaType → Bool
is_image MediaType.image = true
is_image _ = false

abbrev pub is_video : MediaType → Bool
is_video MediaType.video = true
is_video _ = false

-- H264 is always included for videos.
unfoldable pub with_h264 : MediaType → List Codec → List Codec
with_h264 type codecs =
    if is_video type && not (any (λ c. c == h264) codecs) then codecs ++ (h264 ∷ []) else codecs

abbrev size_or_zero : Option ℕ → ℕ
size_or_zero none = 0
size_or_zero (some n) = n

-- The media is done as it is; `size` is what os.Stat says if it does not fail.
unfoldable pub finish_as_is : ℕ → Media → M Media
finish_as_is size media = do
  stat ← attempt (call (pure size))
  let done = mark_as_done media media.original_path [] 0 0 [] (size_or_zero stat)
  ignore (call (write (λ now. update_done done)))
  pure done

-- The loop over the codecs: a variant that is not saved has no job.
unfoldable pub add_variants : Text → ℤ → List Codec → M (Unit {0})
add_variants id fps [] = pure tt
add_variants id fps (c ∷ cs) = do
  saved ← attempt (call (statement (save_variant id c)))
  elim saved [
    | none ↦ pure tt
    | some v ↦ ignore (call (statement (enqueue id JobType.convert c fps)))
  ]
  add_variants id fps cs

-- What follows once the media is in the store, by the codecs that are to be made.
unfoldable pub start_codecs : ℕ → Media → ℤ → List Codec → M Media
unfolding finish_as_is add_variants
start_codecs size media fps [] = do
  done ← finish_as_is size media
  if is_video media.type
      then ignore (call (statement (enqueue media.id JobType.thumbnail [] (pos 0))))
      else pure tt
  pure done
start_codecs size media fps (c ∷ cs) = do add_variants media.id fps (c ∷ cs); pure media

unfoldable pub start_media : ℕ → Media → ℤ → List Codec → M Media
unfolding finish_as_is start_codecs with_h264
start_media size media fps codecs =
    if is_image media.type
    then finish_as_is size media
    else start_codecs size media fps (with_h264 media.type codecs)

-- The settings of the service and what it takes from outside: the directory, ffprobe's answers,
-- random names, the calendar and the sizes of files.
pub record Uploads : Type 0 where
  pub upload_dir : Text
  pub probe_of : Text → Errors.Result ProbeResult
  pub random_id : Option Text
  pub add_days : ℕ → ℤ → ℕ
  pub size : ℕ

module _ (uploads : Uploads) where
  open uploads use {upload_dir, probe_of, random_id, add_days, size}

  -- Upload, until the media is saved.
  unfoldable pub prepare : Text → Text → ℤ → MediaType → M Media
  unfolding move_file generate_id new_media with_probe or_else
  prepare filename source days type = do
    or_wrap (text "failed to create upload directory") file_step
    let upload_path = join upload_dir (base filename)
    move_file source
    id ← generate_id random_id
    now ← clock
    let final_path = join upload_dir (id ++ (b'_' ∷ base filename))
    or_else file_step
        (λ e. remove_file upload_path >> throw (wrapped (text "failed to finalize upload") e))
    result ← attempt (probe probe_of final_path)
    pure (with_probe (new_media id type filename final_path days now (add_days now days)) result)

  -- Upload
  unfoldable pub upload : Text → Text → ℤ → MediaType → List Codec → ℤ → M Media
  unfolding prepare start_media or_else
  upload filename source days type codecs fps = do
    media ← prepare filename source days type
    or_else (call (statement (λ now. save media))) (λ e.
        remove_file (join upload_dir (base filename))
        >> throw (wrapped (text "failed to save media metadata") e))
    start_media size media fps codecs
