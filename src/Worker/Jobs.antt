-- ===== src/Worker/Jobs.antt =====
-- worker.go: the job that a worker processes, in the table of jobs.
use sharm.Common.{
  ℤ, map, ℕ, ◌≡◌, ◌&&◌, not, refl, ◌∙◌, Option, none, some, List, [], Text, ◌==◌, nat_eq, text_eq,
  if◌then◌else◌,
}
use sharm.Domain.{Job, JobStatus, MediaStatus, Codec}
use sharm.Domain.Errors
use sharm.Domain.Probe.{ProbeResult}
use sharm.Domain.Errors.{Error, message}
use sharm.Store.{Db, update_where}
use sharm.Store.Rows.{update_where-map}
use sharm.Store.Jobs.{complete, fail, finish, give_up}
use sharm.Store.Media.{update_status, update_done, update_probe_json}
use sharm.Store.Variants.{update_variant_status, update_variant_done}
use sharm.World.{
  World, Event, Outcome, ok, err, panic, M, call, ignore, ◌>>◌, write, publish, remove_file,
  run_command, next_outcome, monad, pure,
}
use sharm.World.Rules.{Preserves, preserving, Preserves-call}
use sharm.Converter.Safety.{parsed-Preserves}
use sharm.Converter.{
  convert, convert_codec, convert_av1, convert_h264, convert_opus, after_av1, thumbnail, probe,
  validate_path,
}
use sharm.Worker.{Files, store_update_status, publish_status}
use sharm.Worker.Kept.{IsKept, handle-kept, fail_variant-kept, publish_status-kept}
use sharm.Worker.Convert.{fail_variant}
use sharm.Worker.Process.{is_convert, handle, record_failure, after_handler, process_job}

-- The table of jobs and the clock are as they were.
record SameJobs (js : List Job) (t : ℕ) (w : World) : Type 0 where
  jobs : w.db.jobs ≡ js
  clock : w.now ≡ t

module _ (js : List Job) (t : ℕ) where
  skip_jobs :
      (w : World) (os : List (Option Text))
      → SameJobs js t w
      → SameJobs js t (record w { outcomes = os })
  skip_jobs w os i = record { jobs = i.jobs; clock = i.clock }

  calling :
      {A : Type 0} {m : M A} → Preserves (SameJobs js t) m → Preserves (SameJobs js t) (call m)
  calling = Preserves-call skip_jobs

  write-jobs :
      (f : ℕ → Db → Db)
      → ((n : ℕ) (db : Db) → (f n db).jobs ≡ db.jobs)
      → Preserves (SameJobs js t) (write f)
  unfolding write
  write-jobs f same = record {
    keeps = λ w i. record { jobs = same w.now w.db ∙ i.jobs; clock = i.clock };
  }

  publish-jobs : (id : Text) (e : Event) → Preserves (SameJobs js t) (publish id e)
  unfolding publish
  publish-jobs id e = record { keeps = λ w i. record { jobs = i.jobs; clock = i.clock } }

  remove_file-jobs : (path : Text) → Preserves (SameJobs js t) (remove_file path)
  unfolding remove_file
  remove_file-jobs path = record { keeps = λ w i. record { jobs = i.jobs; clock = i.clock } }

  run_command-jobs :
      (name : Text) (args : List Text) → Preserves (SameJobs js t) (run_command name args)
  unfolding run_command
  run_command-jobs name args = record { keeps = λ w i. record { jobs = i.jobs; clock = i.clock } }

  ruleset steps = (preserving, calling, publish-jobs, remove_file-jobs, run_command-jobs)

  validate_path-jobs : (path : Text) → Preserves (SameJobs js t) (validate_path path)
  unfolding validate_path
  validate_path-jobs path = search steps

  convert_av1-jobs : (i o : Text) (fps : ℤ) → Preserves (SameJobs js t) (convert_av1 i o fps)
  unfolding convert_av1
  convert_av1-jobs i o fps = search (steps, validate_path-jobs) depth 20

  convert_h264-jobs : (i o : Text) (fps : ℤ) → Preserves (SameJobs js t) (convert_h264 i o fps)
  unfolding convert_h264
  convert_h264-jobs i o fps = search (steps, validate_path-jobs) depth 20

  convert_opus-jobs : (i o : Text) → Preserves (SameJobs js t) (convert_opus i o)
  unfolding convert_opus
  convert_opus-jobs i o = search (steps, validate_path-jobs) depth 20

  thumbnail-jobs : (i o : Text) → Preserves (SameJobs js t) (thumbnail i o)
  unfolding thumbnail
  thumbnail-jobs i o = search (steps, validate_path-jobs) depth 20

  after_av1-jobs :
      (i webm mp4 : Text) (tried : Option (Unit {0}))
      → Preserves (SameJobs js t) (after_av1 i webm mp4 tried)
  after_av1-jobs i webm mp4 none = search (steps, convert_h264-jobs)
  after_av1-jobs i webm mp4 (some _) = search steps

  convert-jobs : (i dir id : Text) → Preserves (SameJobs js t) (convert i dir id)
  unfolding convert
  convert-jobs i dir id =
      search (steps, validate_path-jobs, convert_av1-jobs, after_av1-jobs) depth 20

  convert_codec-jobs :
      (i dir id : Text) (c : Codec) (fps : ℤ)
      → Preserves (SameJobs js t) (convert_codec i dir id c fps)
  unfolding convert_codec
  convert_codec-jobs i dir id c fps =
      search (steps, validate_path-jobs, convert_av1-jobs, convert_h264-jobs, convert_opus-jobs)
        depth 20

  probe-jobs :
      (f : Text → Errors.Result ProbeResult) (i : Text) → Preserves (SameJobs js t) (probe f i)
  unfolding probe
  probe-jobs f i = search (steps, validate_path-jobs, parsed-Preserves) depth 20

  SameJobs-IsKept : IsKept (SameJobs js t)
  unfolding update_status update_done update_probe_json update_variant_status update_variant_done
  SameJobs-IsKept = record {
    skip = skip_jobs;
    status = λ id s m. write-jobs (λ _. update_status id s m) (λ n db. refl);
    done = λ m. write-jobs (λ _. update_done m) (λ n db. refl);
    json = λ id j. write-jobs (λ _. update_probe_json id j) (λ n db. refl);
    variant_status = λ id s m. write-jobs (λ _. update_variant_status id s m) (λ n db. refl);
    variant_done = λ v. write-jobs (λ _. update_variant_done v) (λ n db. refl);
    publishing = publish-jobs;
    removing = remove_file-jobs;
    converting = convert-jobs;
    converting_codec = convert_codec-jobs;
    thumbnailing = thumbnail-jobs;
    probing = probe-jobs;
  }

handle-jobs :
    (files : Files) (job : Job) (w : World) → SameJobs w.db.jobs w.now (handle files job w).1
handle-jobs files job w =
    (handle-kept (SameJobs w.db.jobs w.now) (SameJobs-IsKept w.db.jobs w.now) files job).keeps w
      (record { jobs = refl; clock = refl })

-- What is written about a job whose handler ended like this, when the write itself ends like that.
unfoldable recorded : Job → Outcome (Unit {0}) → Option Text → ℕ → List Job → List Job
recorded job (ok _) none now js = update_where (λ j. j.id == job.id) (finish now) js
recorded job (err e) none now js = update_where (λ j. j.id == job.id) (give_up (message e) now) js
recorded job panic none now js = js
recorded job _ (some _) now js = js

-- An ignored call of a write to the jobs.
write_then :
    (f : ℕ → Db → Db) (k : M (Unit {0})) (w : World)
    → ((js : List Job) → Preserves (SameJobs js w.now) k)
    → (o : Option Text) → next_outcome w.outcomes ≡ o
    → ((ignore (call (write f)) >> k) w).1.db.jobs
      ≡ elim o [ none ↦ (f w.now w.db).jobs | some _ ↦ w.db.jobs ]
unfolding monad
write_then f k w kept none e =
    rw (e, ◌>>◌, ignore, call, write)
      ((kept (f w.now w.db).jobs).keeps _ (record { jobs = refl; clock = refl })).jobs
write_then f k w kept (some m) e =
    rw (e, ◌>>◌, ignore, call, write)
      ((kept w.db.jobs).keeps _ (record { jobs = refl; clock = refl })).jobs

module _ (js : List Job) (t : ℕ) (job : Job) (e : Error) where
  failing-jobs : Preserves (SameJobs js t) (
      if is_convert job.type && not (job.codec == [])
      then fail_variant job
      else if is_convert job.type
      then (do
        ignore (store_update_status job.media_id MediaStatus.failed (message e))
        publish_status job.media_id MediaStatus.failed (message e))
      else pure tt)
  failing-jobs =
      search
        (
          preserving,
          calling js t,
          IsKept.status (SameJobs-IsKept js t),
          fail_variant-kept (SameJobs js t) (SameJobs-IsKept js t),
          publish_status-kept (SameJobs js t) (SameJobs-IsKept js t),
        )
        depth 20

after_handler-jobs :
    (files : Files) (job : Job) (r : Outcome (Unit {0}) × World) (o : Option Text)
    → next_outcome r.1.outcomes ≡ o
    → (after_handler files job r).1.db.jobs ≡ recorded job r.0 o r.1.now r.1.db.jobs
unfolding after_handler record_failure recorded complete fail monad
after_handler-jobs files job (ok _, w) none h =
    rw (h, after_handler, ignore, call, write, recorded, complete) refl
after_handler-jobs files job (ok _, w) (some m) h =
    rw (h, after_handler, ignore, call, write, recorded, complete) refl
after_handler-jobs files job (panic, w) none h = refl
after_handler-jobs files job (panic, w) (some m) h = refl
after_handler-jobs files job (err e, w) none h =
    write_then (fail job.id (message e)) _ w (λ js. failing-jobs js w.now job e) none h
after_handler-jobs files job (err e, w) (some m) h =
    write_then (fail job.id (message e)) _ w (λ js. failing-jobs js w.now job e) (some m) h

-- The table with a job as its worker leaves it: done where its handler succeeded, failed with the
-- error where it did not, and untouched where it panicked or the write has failed.
unfoldable pub settled_jobs : Job → Outcome (Unit {0}) → Option Text → ℕ → List Job → List Job
settled_jobs job (ok _) none now js =
    map
      (λ (j : Job).
        if j.id == job.id then record j { status = JobStatus.done; completed_at = some now } else j)
      js
settled_jobs job (err e) none now js =
    map
      (λ (j : Job).
        if j.id == job.id
        then record j {
          status = JobStatus.failed;
          error_message = message e;
          completed_at = some now;
        }
        else j)
      js
settled_jobs job panic none now js = js
settled_jobs job _ (some _) now js = js

recorded-settled_jobs :
    (job : Job) (r : Outcome (Unit {0})) (o : Option Text) (now : ℕ) (js : List Job)
    → recorded job r o now js ≡ settled_jobs job r o now js
unfolding recorded settled_jobs finish give_up
recorded-settled_jobs job (ok _) none now js = update_where-map _ (finish now) js
recorded-settled_jobs job (err e) none now js = update_where-map _ (give_up (message e) now) js
recorded-settled_jobs job panic none now js = refl
recorded-settled_jobs job (ok _) (some _) now js = refl
recorded-settled_jobs job (err e) (some _) now js = refl
recorded-settled_jobs job panic (some _) now js = refl

-- After a worker has processed a job, the table of jobs is the table before, except that the job is
-- done if its handler succeeded, and has failed with the handler's error if it did not, provided
-- that this last write succeeds: where it fails, or the handler panics, no job is changed.
pub process_job-jobs :
    (files : Files) (job : Job) (w : World)
    → let r = handle files job w in
      (process_job files job w).1.db.jobs
      ≡ settled_jobs job r.0 (next_outcome r.1.outcomes) w.now w.db.jobs
unfolding process_job
process_job-jobs files job w =
    let same = handle-jobs files job w in
    after_handler-jobs files job (handle files job w) (next_outcome (handle files job w).1.outcomes)
      refl
    ∙ rw (same.clock, same.jobs)
        (recorded-settled_jobs job (handle files job w).0
          (next_outcome (handle files job w).1.outcomes) w.now w.db.jobs)
