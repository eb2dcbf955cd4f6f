-- ===== src/Worker/Safety.antt =====
-- worker.go: the commands that a worker runs for a job.
use sharm.Common.{ℕ, Text}
use sharm.Domain.{Job, MediaStatus}
use sharm.Domain.Errors.{Error}
use sharm.Store.{Db}
use sharm.World.{World, Event, Outcome, ok, err, panic, call, ignore, write, publish, remove_file}
use sharm.World.Rules.{Preserves, preserving}
use sharm.Converter.Safety.{
  AreCleanCommands, skip_commands, call-clean, thumbnail-clean, probe-clean, convert-clean,
  convert_codec-clean,
}
use sharm.Worker.{Files, publish_status}
use sharm.Worker.Kept.{IsKept, handle-kept, fail_variant-kept, publish_status-kept}
use sharm.Store.Jobs.{complete}
use sharm.Worker.Convert.{fail_variant}
use sharm.Worker.Process.{handle, record_failure, after_handler, process_job}

write-clean : (f : ℕ → Db → Db) → Preserves AreCleanCommands (write f)
unfolding write
write-clean f = record { keeps = λ w i. i }

publish-clean : (id : Text) (e : Event) → Preserves AreCleanCommands (publish id e)
unfolding publish
publish-clean id e = record { keeps = λ w i. i }

remove_file-clean : (path : Text) → Preserves AreCleanCommands (remove_file path)
unfolding remove_file
remove_file-clean path = record { keeps = λ w i. i }

AreCleanCommands-kept : IsKept AreCleanCommands
AreCleanCommands-kept = record {
  skip = skip_commands;
  status = λ id s m. write-clean _;
  done = λ m. write-clean _;
  json = λ id j. write-clean _;
  variant_status = λ id s m. write-clean _;
  variant_done = λ v. write-clean _;
  publishing = publish-clean;
  removing = remove_file-clean;
  converting = convert-clean;
  converting_codec = convert_codec-clean;
  thumbnailing = thumbnail-clean;
  probing = probe-clean;
}

fail_variant-clean : (job : Job) → Preserves AreCleanCommands (fail_variant job)
fail_variant-clean = fail_variant-kept AreCleanCommands AreCleanCommands-kept

publish_status-clean :
    (id : Text) (s : MediaStatus) (m : Text) → Preserves AreCleanCommands (publish_status id s m)
publish_status-clean = publish_status-kept AreCleanCommands AreCleanCommands-kept

record_failure-clean :
    (files : Files) (job : Job) (e : Error)
    → Preserves AreCleanCommands (record_failure files job e)
unfolding record_failure
record_failure-clean files job e =
    search (preserving, call-clean, write-clean, fail_variant-clean, publish_status-clean) depth 20

after_handler-clean :
    (files : Files) (job : Job) (r : Outcome (Unit {0}) × World)
    → AreCleanCommands r.1
    → AreCleanCommands (after_handler files job r).1
unfolding after_handler
after_handler-clean files job (ok _, w) i =
    let finished : Preserves AreCleanCommands (ignore (call (write (complete job.id)))) =
      search (preserving, call-clean, write-clean) in
    finished.keeps w i
after_handler-clean files job (err e, w) i = (record_failure-clean files job e).keeps w i
after_handler-clean files job (panic, w) i = i

-- However its calls to the outside end, a worker that processes a job starts no command with an
-- argument that is empty or holds a null byte, if none was started before.
pub process_job-AreCleanCommands :
    (files : Files) (job : Job) (w : World)
    → AreCleanCommands w
    → AreCleanCommands (process_job files job w).1
unfolding process_job
process_job-AreCleanCommands files job w i =
    after_handler-clean files job (handle files job w)
      ((handle-kept AreCleanCommands AreCleanCommands-kept files job).keeps w i)
