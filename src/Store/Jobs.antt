-- ===== src/Store/Jobs.antt =====
-- jobqueue.go over queries/jobs.sql: the queue of jobs. `now` is the database's datetime('now').
pub mod Claims
pub mod Once
use sharm.Common.{
  ℤ, ℕ, ◌+◌, Bool, true, false, Option, none, some, List, [], ◌∷◌, ◌++◌, Text, ◌==◌, text_eq,
  nat_eq, any, if◌then◌else◌, ltb,
}
use sharm.Domain.{Job, JobType, JobStatus, Codec}
use sharm.Domain.Errors.{Error, constraint, Result, ok, err}
use sharm.Store.{Db, Medium, update_where, delete_where}

abbrev pub is_pending : JobStatus → Bool
is_pending JobStatus.pending = true
is_pending _ = false

abbrev pub is_running : JobStatus → Bool
is_running JobStatus.running = true
is_running _ = false

abbrev pub has_media : Text → List Medium → Bool
has_media id rows = any (λ (m : Medium). m.id == id) rows

abbrev new_job : ℕ → ℕ → Text → JobType → Codec → ℤ → Job
new_job id now media_id type codec fps = record {
  id = id;
  media_id = media_id;
  type = type;
  codec = codec;
  fps = fps;
  status = JobStatus.pending;
  error_message = [];
  attempts = 0;
  created_at = now;
  started_at = none;
  completed_at = none;
}

-- Enqueue: the foreign key on media(id) refuses a job of an unknown media.
unfoldable pub enqueue : Text → JobType → Codec → ℤ → ℕ → Db → Result Job × Db
enqueue media_id type codec fps now db =
    let job = new_job db.next_job now media_id type codec fps in
    if has_media media_id db.media
    then (ok job, record db { jobs = db.jobs ++ (job ∷ []); next_job = db.next_job + 1 })
    else (err constraint, db)

-- Of two pending jobs the one that was created first; of equal ones the first of the table.
unfoldable pub older : Job → Option Job → Job
older j none = j
older j (some k) = if ltb k.created_at j.created_at then k else j

unfoldable pub oldest_pending : List Job → Option Job
unfolding older
oldest_pending [] = none
oldest_pending (j ∷ js) =
    let rest = oldest_pending js in if is_pending j.status then some (older j rest) else rest

unfoldable pub start : ℕ → Job → Job
start now j = record j {
  status = JobStatus.running;
  started_at = some now;
  attempts = j.attempts + 1;
}

-- Claim: one UPDATE … RETURNING; no row is no job.
unfoldable pub claim : ℕ → Db → Option Job × Db
unfolding start
claim now db = elim (oldest_pending db.jobs) [
  | none ↦ (none, db)
  | some j ↦ (
    some (start now j),
    record db { jobs = update_where (λ k. k.id == j.id) (start now) db.jobs },
  )
]

unfoldable pub finish : ℕ → Job → Job
finish now j = record j { status = JobStatus.done; completed_at = some now }

unfoldable pub complete : ℕ → ℕ → Db → Db
unfolding finish
complete id now db = record db { jobs = update_where (λ j. j.id == id) (finish now) db.jobs }

unfoldable pub give_up : Text → ℕ → Job → Job
give_up message now j = record j {
  status = JobStatus.failed;
  error_message = message;
  completed_at = some now;
}

unfoldable pub fail : ℕ → Text → ℕ → Db → Db
unfolding give_up
fail id message now db = record db {
  jobs = update_where (λ j. j.id == id) (give_up message now) db.jobs;
}

unfoldable pub requeue : Job → Job
requeue j = record j { status = JobStatus.pending; started_at = none }

unfoldable pub reset_stalled : Db → Db
unfolding requeue
reset_stalled db = record db { jobs = update_where (λ j. is_running j.status) requeue db.jobs }

unfoldable pub delete_jobs_by_media : Text → Db → Db
delete_jobs_by_media id db = record db { jobs = delete_where (λ j. j.media_id == id) db.jobs }
