-- ===== src/Worker/Convert.antt =====
-- The conversion of one variant, and what follows its success or failure.
use sharm.Common.{ℕ, Option, none, some, [], ◌++◌, Text, text, ◌==◌, text_eq, ◌&&◌, if◌then◌else◌}
use sharm.Domain.{Media, MediaStatus, Variant, VariantStatus, Job}
use sharm.Domain.Probe.{ProbeResult, dimensions}
use sharm.Domain.Variants.{mark_as_done, all_variants_terminal, has_done_variant, best_variant}
use sharm.World.{M, pure, crash, ◌>>=◌, ◌>>◌, or_wrap, ignore, attempt, when, monad}
use sharm.Converter.{convert_codec, thumbnail, probe}
use sharm.Worker.{
  Files, is_pending, is_video, publish_status, store_get, store_get_variant, store_update_status,
  store_update_done, store_update_probe_json, store_update_variant_status,
  store_update_variant_done, mkdir_all, size_or_zero, stat, converted_dir, thumb_path_of,
  handle_legacy_convert,
}

-- MarkAsDone with the fields of the best variant; the thumbnail stays.
unfoldable pub mark_as_best : Media → Variant → Media
mark_as_best m v = mark_as_done m v.path v.codec v.width v.height m.thumb_path v.file_size

-- The end of handleVariantConvert, on the media fetched again.
unfoldable pub finish_with : Media → Option Variant → M (Unit {0})
finish_with m (some v) = do
  or_wrap (text "update media done") (store_update_done (mark_as_best m v))
  publish_status m.id MediaStatus.done []
finish_with m none = do
  ignore (store_update_status m.id MediaStatus.failed (text "all conversions failed"))
  publish_status m.id MediaStatus.failed (text "all conversions failed")

unfoldable pub settle : Media → M (Unit {0})
settle m =
    if all_variants_terminal m
    then finish_with m (best_variant m)
    else publish_status m.id MediaStatus.processing []

-- The end of failVariant, on the media fetched again: here an error of UpdateDone is only logged.
unfoldable pub fail_with : Media → Option Variant → M (Unit {0})
fail_with m (some v) = do
  ignore (store_update_done (mark_as_best m v))
  publish_status m.id MediaStatus.done []
fail_with m none = crash

unfoldable pub settle_after_failure : Media → M (Unit {0})
settle_after_failure m =
    if all_variants_terminal m
    then (if has_done_variant m then fail_with m (best_variant m) else (do
      ignore (store_update_status m.id MediaStatus.failed (text "all conversions failed"))
      publish_status m.id MediaStatus.failed (text "all conversions failed")))
    else pure tt

-- What the probe of a converted file says: nothing where it failed.
abbrev dimensions_of : Option ProbeResult → ℕ × ℕ
dimensions_of none = (0, 0)
dimensions_of (some r) = dimensions r

unfoldable pub save_probe : Media → Option ProbeResult → M (Unit {0})
save_probe m none = pure tt
save_probe m (some r) = when (m.probe_json == []) (ignore (store_update_probe_json m.id r.raw_json))

abbrev with_thumb : Media → Text → Option (Unit {0}) → Media
with_thumb m path none = m
with_thumb m path (some _) = record m { thumb_path = path }

module _ (files : Files) where
  open files use {probe_of}

  -- The size of a video, from a probe of the converted file.
  unfoldable pub measure : Media → Text → M (ℕ × ℕ)
  measure media path =
      if is_video media.type
      then (do
        result ← attempt (probe probe_of path)
        save_probe media result
        pure (dimensions_of result))
      else pure (0, 0)

  -- The thumbnail of a video that has none: the media in memory gets its path.
  unfoldable pub make_thumbnail : Media → Text → M Media
  make_thumbnail media path =
      if is_video media.type && media.thumb_path == []
      then (do
        made ← attempt (thumbnail path (thumb_path_of files media.id))
        pure (with_thumb media (thumb_path_of files media.id) made))
      else pure media

  unfoldable pub handle_variant_convert : Job → Media → M (Unit {0})
  handle_variant_convert job media = do
    variant ← or_wrap (text "get variant") (store_get_variant media.id job.codec)
    ignore (store_update_variant_status variant.id VariantStatus.processing [])
    publish_status media.id MediaStatus.processing []
    or_wrap (text "create converted directory") (mkdir_all (converted_dir files))
    path ←
        or_wrap (text "convert " ++ job.codec)
          (convert_codec media.original_path (converted_dir files) media.id job.codec job.fps)
    (width, height) ← measure media path
    size ← stat files path
    or_wrap (text "update variant done") (
        store_update_variant_done (record variant {
          path = path;
          file_size = size_or_zero size;
          width = width;
          height = height;
          status = VariantStatus.done;
        }))
    media ← make_thumbnail media path
    media ← or_wrap (text "re-fetch media") (store_get media.id)
    settle media

  unfoldable pub handle_convert : Job → M (Unit {0})
  handle_convert job = do
    media ← or_wrap (text "get media") (store_get job.media_id)
    when (is_pending media.status) (do
      ignore (store_update_status media.id MediaStatus.processing [])
      publish_status media.id MediaStatus.processing [])
    or_wrap (text "create converted directory") (mkdir_all (converted_dir files))
    if job.codec == []
        then handle_legacy_convert files job media
        else handle_variant_convert job media

-- failVariant: each error that is only logged ends it.
unfoldable pub fail_variant : Job → M (Unit {0})
fail_variant job = ignore (do
  variant ← store_get_variant job.media_id job.codec
  ignore (store_update_variant_status variant.id VariantStatus.failed job.error_message)
  media ← store_get job.media_id
  settle_after_failure media)

-- To unfold this is to unfold the handling of a variant.
unfoldable pub conversion : Unit {0}
unfolding monad publish_status mark_as_best finish_with settle fail_with settle_after_failure
    save_probe handle_variant_convert fail_variant
conversion = tt
