-- ===== src/Worker/Tests.antt =====
-- A worker on a small database.
use sharm.Common.{text_beq, refl, ◌≡◌, pos, some, none, [], ◌∷◌, text}
use sharm.Domain.{
  Media, Job, JobType, JobStatus, MediaType, MediaStatus, Variant, VariantStatus, av1,
}
use sharm.Store.{Medium, empty_db}
use sharm.World.{World, next_outcome}
use sharm.Converter.Safety.{AreCleanCommands}
use sharm.Worker.{Files}
use sharm.Worker.Process.{handle, process_job}
use sharm.Worker.Safety.{process_job-AreCleanCommands}
use sharm.Worker.Jobs.{settled_jobs, process_job-jobs}
use sharm.Domain.Errors
use sharm.Store.{select_one, select, order_by, update_where}
use sharm.Store.Media.{get, medium_to_media}
use sharm.Store.Variants.{
  get_variant_by_media_and_codec, list_variants_by_media, update_variant_status,
}
use sharm.World.{ok}
use sharm.Worker.Convert.{settle, settle_after_failure, fail_variant}
use sharm.Worker.Settled.{fail_variant-ok}
use sharm.Worker.Status.{stored_status, settled_status, settle-status, fail_variant-status}

abbrev files : Files
files = record {
  probe_of = λ path. Errors.ok (record {
    format = record {
      format_name = [];
      format_long = [];
      duration = [];
      size = [];
      bit_rate = [];
      nb_streams = 0;
      tags = [];
    };
    streams = [];
    raw_json = text "{}";
  });
  size_of = λ path. 10;
  data_dir = text "/data";
}

abbrev clip : Medium
clip = record {
  id = text "m";
  type = MediaType.video;
  original_name = text "a.mov";
  original_path = text "/data/a.mov";
  converted_path = [];
  status = MediaStatus.pending;
  codec = [];
  error_message = [];
  retention_days = pos 7;
  file_size = 0;
  width = 0;
  height = 0;
  thumb_path = [];
  created_at = 0;
  expires_at = 700;
  probe_json = [];
}

abbrev variant : Variant
variant = record {
  id = 1;
  media_id = text "m";
  codec = av1;
  path = [];
  file_size = 0;
  width = 0;
  height = 0;
  status = VariantStatus.pending;
  error_message = [];
  created_at = 5;
}

abbrev job : Job
job = record {
  id = 1;
  media_id = text "m";
  type = JobType.convert;
  codec = av1;
  fps = pos 30;
  status = JobStatus.running;
  error_message = [];
  attempts = 1;
  created_at = 5;
  started_at = some 6;
  completed_at = none;
}

abbrev world : World
world = record {
  db = record empty_db { media = clip ∷ []; variants = variant ∷ []; jobs = job ∷ [] };
  events = [];
  outcomes = [];
  commands = [];
  removed = [];
  now = 8;
}

process_job-AreCleanCommands_example : AreCleanCommands (process_job files job world).1
process_job-AreCleanCommands_example = process_job-AreCleanCommands files job world tt

process_job-jobs_example :
    (process_job files job world).1.db.jobs
    ≡ settled_jobs job
        (handle files job world).0
        (next_outcome (handle files job world).1.outcomes)
        8
        (job ∷ [])
process_job-jobs_example = process_job-jobs files job world

fail_variant-ok_example : (fail_variant job world).0 ≡ ok tt
fail_variant-ok_example = fail_variant-ok job world

variant_found : get_variant_by_media_and_codec (text "m") av1 world.db ≡ Errors.ok variant
unfolding get_variant_by_media_and_codec select_one text_beq
variant_found = refl

abbrev media : Media
media = medium_to_media clip (variant ∷ [])

abbrev media_after : Media
media_after = medium_to_media clip (record variant { status = VariantStatus.failed } ∷ [])

media_found : get (text "m") world.db ≡ Errors.ok media
unfolding get select_one list_variants_by_media select order_by text_beq
media_found = refl

media_refetched :
    get (text "m") (update_variant_status 1 VariantStatus.failed [] world.db)
    ≡ Errors.ok media_after
unfolding get select_one list_variants_by_media select order_by text_beq update_variant_status
    update_where
media_refetched = refl

settle-status_example :
    (stored_status (text "m") (settle media world).1.db ≡ some (settled_status media))
    × (stored_status (text "m") (settle_after_failure media world).1.db
        ≡ some (settled_status media))
settle-status_example = settle-status (text "m") media world refl media_found

fail_variant-status_example :
    stored_status (text "m") (fail_variant job world).1.db ≡ some (settled_status media_after)
fail_variant-status_example =
    fail_variant-status job variant media_after world refl variant_found media_refetched
