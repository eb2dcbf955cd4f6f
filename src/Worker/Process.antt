-- ===== src/Worker/Process.antt =====
-- processJob: the job's handler, and what is recorded of it.
use sharm.Common.{Bool, true, false, ◌&&◌, not, [], ◌++◌, text, ◌==◌, text_eq, if◌then◌else◌}
use sharm.Domain.{Job, JobType, MediaStatus}
use sharm.Domain.Errors.{Error, plain, message}
use sharm.Store.Jobs.{complete, fail}
use sharm.World.{World, M, Outcome, ok, err, panic, pure, throw, ◌>>◌, ignore, call, write}
use sharm.Worker.{Files, publish_status, store_update_status, handle_thumbnail, handle_probe}
use sharm.Worker.Convert.{handle_convert, fail_variant}

abbrev pub is_convert : JobType → Bool
is_convert JobType.convert = true
is_convert _ = false

module _ (files : Files) where
  -- The switch on the job's type.
  unfoldable pub dispatch : JobType → Job → M (Unit {0})
  dispatch JobType.convert job = handle_convert files job
  dispatch JobType.thumbnail job = handle_thumbnail files job
  dispatch JobType.probe job = handle_probe files job
  dispatch (JobType.unknown t) job = throw (plain (text "unknown job type: " ++ t))

  unfoldable pub handle : Job → M (Unit {0})
  unfolding dispatch
  handle job = dispatch job.type job

  -- What is done after an error of the handler.
  unfoldable pub record_failure : Job → Error → M (Unit {0})
  record_failure job e = do
    ignore (call (write (fail job.id (message e))))
    if is_convert job.type && not (job.codec == [])
        then fail_variant job
        else if is_convert job.type
        then (do
          ignore (store_update_status job.media_id MediaStatus.failed (message e))
          publish_status job.media_id MediaStatus.failed (message e))
        else pure tt

  unfoldable pub after_handler : Job → Outcome (Unit {0}) × World → Outcome (Unit {0}) × World
  after_handler job (ok _, w) = ignore (call (write (complete job.id))) w
  after_handler job (err e, w) = record_failure job e w
  after_handler job (panic, w) = (panic, w)

  unfoldable pub process_job : Job → M (Unit {0})
  process_job job w = after_handler job (handle job w)
