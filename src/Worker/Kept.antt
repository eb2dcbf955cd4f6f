-- ===== src/Worker/Kept.antt =====
-- worker.go: from what each step of a worker keeps to what its handlers keep.
use sharm.Common.{ℤ, ℕ, Option, none, some, Text, List}
use sharm.Domain.{Media, MediaStatus, Variant, VariantStatus, Job, JobType, Codec}
use sharm.Domain.Errors
use sharm.Domain.Probe.{ProbeResult}
use sharm.Store.Media.{update_status, update_done, update_probe_json}
use sharm.Store.Variants.{update_variant_status, update_variant_done}
use sharm.World.{World, Event, M, call, write, publish, remove_file}
use sharm.World.Rules.{Preserves, preserving, Preserves-call}
use sharm.Converter.{convert, convert_codec, thumbnail, probe}
use sharm.Worker.{
  Files, publish_status, handle_legacy_convert, handle_thumbnail, handle_probe, size_or_crash,
}
use sharm.Worker.Convert.{
  finish_with, settle, fail_with, settle_after_failure, save_probe, measure, make_thumbnail,
  handle_variant_convert, handle_convert, fail_variant,
}
use sharm.Worker.Process.{dispatch, handle}

-- The steps of a worker that reach outside its memory, but for those on its own job.
pub record IsKept (I : World → Type 0) : Type 0 where
  pub skip : (w : World) (os : List (Option Text)) → I w → I (record w { outcomes = os })
  pub status :
      (id : Text) (s : MediaStatus) (m : Text) → Preserves I (write (λ _. update_status id s m))
  pub done : (m : Media) → Preserves I (write (λ _. update_done m))
  pub json : (id j : Text) → Preserves I (write (λ _. update_probe_json id j))
  pub variant_status :
      (id : ℕ) (s : VariantStatus) (m : Text)
      → Preserves I (write (λ _. update_variant_status id s m))
  pub variant_done : (v : Variant) → Preserves I (write (λ _. update_variant_done v))
  pub publishing : (id : Text) (e : Event) → Preserves I (publish id e)
  pub removing : (path : Text) → Preserves I (remove_file path)
  pub converting : (input dir id : Text) → Preserves I (convert input dir id)
  pub converting_codec :
      (input dir id : Text) (c : Codec) (fps : ℤ) → Preserves I (convert_codec input dir id c fps)
  pub thumbnailing : (input output : Text) → Preserves I (thumbnail input output)
  pub probing : (f : Text → Errors.Result ProbeResult) (input : Text) → Preserves I (probe f input)

module _ (I : World → Type 0) (k : IsKept I) where
  calling : {A : Type 0} {m : M A} → Preserves I m → Preserves I (call m)
  calling = Preserves-call k.skip

  update_status-kept :
      (id : Text) (s : MediaStatus) (m : Text) → Preserves I (write (λ _. update_status id s m))
  update_status-kept = k.status

  update_done-kept : (m : Media) → Preserves I (write (λ _. update_done m))
  update_done-kept = k.done

  update_probe_json-kept : (id j : Text) → Preserves I (write (λ _. update_probe_json id j))
  update_probe_json-kept = k.json

  update_variant_status-kept :
      (id : ℕ) (s : VariantStatus) (m : Text)
      → Preserves I (write (λ _. update_variant_status id s m))
  update_variant_status-kept = k.variant_status

  update_variant_done-kept : (v : Variant) → Preserves I (write (λ _. update_variant_done v))
  update_variant_done-kept = k.variant_done

  publish-kept : (id : Text) (e : Event) → Preserves I (publish id e)
  publish-kept = k.publishing

  remove_file-kept : (path : Text) → Preserves I (remove_file path)
  remove_file-kept = k.removing

  convert-kept : (input dir id : Text) → Preserves I (convert input dir id)
  convert-kept = k.converting

  convert_codec-kept :
      (input dir id : Text) (c : Codec) (fps : ℤ) → Preserves I (convert_codec input dir id c fps)
  convert_codec-kept = k.converting_codec

  thumbnail-kept : (input output : Text) → Preserves I (thumbnail input output)
  thumbnail-kept = k.thumbnailing

  probe-kept : (f : Text → Errors.Result ProbeResult) (input : Text) → Preserves I (probe f input)
  probe-kept = k.probing

  ruleset steps = (
    preserving, calling, update_status-kept, update_done-kept, update_probe_json-kept,
    update_variant_status-kept, update_variant_done-kept, publish-kept, remove_file-kept,
    convert-kept, convert_codec-kept, thumbnail-kept, probe-kept,
  )

  pub publish_status-kept :
      (id : Text) (s : MediaStatus) (m : Text) → Preserves I (publish_status id s m)
  unfolding publish_status
  publish_status-kept id s m = search steps

  size_or_crash-kept : (size : Option ℕ) → Preserves I (size_or_crash size)
  unfolding size_or_crash
  size_or_crash-kept none = search steps
  size_or_crash-kept (some n) = search steps

  finish_with-kept : (m : Media) (v : Option Variant) → Preserves I (finish_with m v)
  unfolding finish_with
  finish_with-kept m none = search (steps, publish_status-kept)
  finish_with-kept m (some v) = search (steps, publish_status-kept)

  settle-kept : (m : Media) → Preserves I (settle m)
  unfolding settle
  settle-kept m = search (steps, publish_status-kept, finish_with-kept)

  fail_with-kept : (m : Media) (v : Option Variant) → Preserves I (fail_with m v)
  unfolding fail_with
  fail_with-kept m none = search steps
  fail_with-kept m (some v) = search (steps, publish_status-kept)

  settle_after_failure-kept : (m : Media) → Preserves I (settle_after_failure m)
  unfolding settle_after_failure
  settle_after_failure-kept m = search (steps, publish_status-kept, fail_with-kept) depth 20

  save_probe-kept : (m : Media) (r : Option ProbeResult) → Preserves I (save_probe m r)
  unfolding save_probe
  save_probe-kept m none = search steps
  save_probe-kept m (some r) = search steps

  pub fail_variant-kept : (job : Job) → Preserves I (fail_variant job)
  unfolding fail_variant
  fail_variant-kept job = search (steps, settle_after_failure-kept) depth 20

  module _ (files : Files) where
    handle_legacy_convert-kept :
        (job : Job) (m : Media) → Preserves I (handle_legacy_convert files job m)
    unfolding handle_legacy_convert
    handle_legacy_convert-kept job m =
        search (steps, publish_status-kept, size_or_crash-kept) depth 20

    handle_thumbnail-kept : (job : Job) → Preserves I (handle_thumbnail files job)
    unfolding handle_thumbnail
    handle_thumbnail-kept job = search steps depth 20

    handle_probe-kept : (job : Job) → Preserves I (handle_probe files job)
    unfolding handle_probe
    handle_probe-kept job = search steps depth 20

    measure-kept : (m : Media) (path : Text) → Preserves I (measure files m path)
    unfolding measure
    measure-kept m path = search (steps, save_probe-kept) depth 20

    make_thumbnail-kept : (m : Media) (path : Text) → Preserves I (make_thumbnail files m path)
    unfolding make_thumbnail
    make_thumbnail-kept m path = search steps depth 20

    handle_variant_convert-kept :
        (job : Job) (m : Media) → Preserves I (handle_variant_convert files job m)
    unfolding handle_variant_convert
    handle_variant_convert-kept job m =
        search (steps, publish_status-kept, measure-kept, make_thumbnail-kept, settle-kept) depth 30

    handle_convert-kept : (job : Job) → Preserves I (handle_convert files job)
    unfolding handle_convert
    handle_convert-kept job =
        search (steps, publish_status-kept, handle_variant_convert-kept, handle_legacy_convert-kept)
          depth 20

    dispatch-kept : (t : JobType) (job : Job) → Preserves I (dispatch files t job)
    unfolding dispatch
    dispatch-kept JobType.convert job = handle_convert-kept job
    dispatch-kept JobType.thumbnail job = handle_thumbnail-kept job
    dispatch-kept JobType.probe job = handle_probe-kept job
    dispatch-kept (JobType.unknown t) job = search steps

    pub handle-kept : (job : Job) → Preserves I (handle files job)
    unfolding handle
    handle-kept job = dispatch-kept job.type job
