-- ===== src/Store/Jobs/Once.antt =====
-- jobqueue.go: histories of the queue, and the jobs that they hand out.
use sharm.Common.{
  ℤ, ℕ, ◌+◌, ◌<◌, ◌≡◌, refl, ◌≢◌, false, Option, none, some, List, [], ◌∷◌, ◌++◌, Text, text_eq,
  nat_eq, nat_beq_iff, All, All-append, All-map, arith, Option-cases, Bool-cases, inl, inr,
}
use sharm.Domain.{Job, JobType, Codec}
use sharm.Store.{Db}
use sharm.Store.Rows.{All-update_where, All-delete_where, All-update_where_made}
use sharm.Store.Jobs.{
  has_media, is_pending, enqueue, oldest_pending, start, claim, complete, fail,
  delete_jobs_by_media,
}
use sharm.Store.Jobs.Claims.{Has, here, there, oldest_pending-IsOldest}

-- What the program does with the queue while it runs; stalled jobs are reset only at its start.
pub data Op : Type 0 where
  put : Text → JobType → Codec → ℤ → ℕ → Op
  take : ℕ → Op
  complete_job : ℕ → ℕ → Op
  fail_job : ℕ → Text → ℕ → Op
  delete_media : Text → Op

unfoldable pub apply : Db → Op → Db
apply db (put media type codec fps now) = (enqueue media type codec fps now db).1
apply db (take now) = (claim now db).1
apply db (complete_job id now) = complete id now db
apply db (fail_job id message now) = fail id message now db
apply db (delete_media id) = delete_jobs_by_media id db

-- The ids of the jobs that the claims of a history hand out, in order.
unfoldable pub id_of : Option Job → List ℕ
id_of none = []
id_of (some j) = j.id ∷ []

unfoldable pub claimed_by : Db → Op → List ℕ
claimed_by db (take now) = id_of (claim now db).0
claimed_by db _ = []

unfoldable pub claimed : Db → List Op → List ℕ
claimed db [] = []
claimed db (op ∷ ops) = claimed_by db op ++ claimed (apply db op) ops

abbrev pub IsFresh : Db → Type 0
IsFresh db = All (λ (j : Job). j.id < db.next_job) db.jobs

abbrev pub IsDistinct : List ℕ → Type 0
IsDistinct [] = Unit
IsDistinct (n ∷ ns) = All (λ m. m ≢ n) ns × IsDistinct ns

-- No row of the queue with this id is pending.
abbrev IsTaken : ℕ → Job → Type 0
IsTaken id j = j.id ≡ id → is_pending j.status ≡ false

abbrev IsOld : ℕ → Job → Type 0
IsOld next j = j.id < next

IsFresh-apply : (db : Db) (op : Op) → IsFresh db → IsFresh (apply db op)
unfolding apply enqueue claim complete fail delete_jobs_by_media
IsFresh-apply db (put media type codec fps now) f = elim (Bool-cases (has_media media db.media)) [
  | inr unknown ↦ rw (unknown, apply) f
  | inl known ↦
      let wider = All-map {Q = IsOld (db.next_job + 1)} (λ j h. omega arith) db.jobs f in
      rw (known, apply) (All-append (IsOld (db.next_job + 1)) db.jobs _ wider (omega arith, tt))
]
IsFresh-apply db (take now) f = elim (Option-cases (oldest_pending db.jobs)) [
  | inl nothing ↦ rw (nothing, apply) f
  | inr (j, found) ↦
      rw (found, apply) (All-update_where (IsOld db.next_job) _ _ (λ j h. h) db.jobs f)
]
IsFresh-apply db (complete_job id now) f =
    All-update_where (IsOld db.next_job) _ _ (λ j h. h) db.jobs f
IsFresh-apply db (fail_job id message now) f =
    All-update_where (IsOld db.next_job) _ _ (λ j h. h) db.jobs f
IsFresh-apply db (delete_media id) f = All-delete_where (IsOld db.next_job) _ db.jobs f

-- A job that is not pending stays so, since no operation here makes a row pending again.
IsTaken-apply :
    (id : ℕ) (db : Db) (op : Op)
    → id < db.next_job
    → All (IsTaken id) db.jobs
    → All (IsTaken id) (apply db op).jobs × (id < (apply db op).next_job)
unfolding apply enqueue claim complete fail delete_jobs_by_media
IsTaken-apply id db (put media type codec fps now) lt a =
    elim (Bool-cases (has_media media db.media)) [
      | inr unknown ↦ rw (unknown, apply, All) (a, lt)
      | inl known ↦
          rw (known, apply, All)
            (All-append (IsTaken id) db.jobs _ a ((λ e. absurd (omega arith)), tt), omega arith)
    ]
IsTaken-apply id db (take now) lt a = elim (Option-cases (oldest_pending db.jobs)) [
  | inl nothing ↦ rw (nothing, apply, All) (a, lt)
  | inr (j, found) ↦
      rw (found, apply, All) (All-update_where (IsTaken id) _ _ (λ j h e. refl) db.jobs a, lt)
]
IsTaken-apply id db (complete_job n now) lt a =
    (All-update_where (IsTaken id) _ _ (λ j h e. refl) db.jobs a, lt)
IsTaken-apply id db (fail_job n message now) lt a =
    (All-update_where (IsTaken id) _ _ (λ j h e. refl) db.jobs a, lt)
IsTaken-apply id db (delete_media m) lt a = (All-delete_where (IsTaken id) _ db.jobs a, lt)

Has-IsTaken :
    (id : ℕ) (j : Job) {js : List Job}
    → Has (λ k. k ≡ j) js
    → All (IsTaken id) js
    → j.id ≡ id
    → is_pending j.status ≡ false
Has-IsTaken id j (here e) a same = ground (arith, a.0)
Has-IsTaken id j (there h) a same = Has-IsTaken id j h a.1 same

Has-lt : (n : ℕ) (j : Job) {js : List Job} → Has (λ k. k ≡ j) js → All (IsOld n) js → j.id < n
Has-lt n j (here e) a = ground arith
Has-lt n j (there h) a = Has-lt n j h a.1

claimed_by-IsTaken :
    (id : ℕ) (db : Db) (op : Op) → All (IsTaken id) db.jobs → All (λ m. m ≢ id) (claimed_by db op)
unfolding claimed_by id_of claim start
claimed_by-IsTaken id db (take now) a = elim (Option-cases (oldest_pending db.jobs)) [
  | inl nothing ↦ rw (nothing, claimed_by, claim) tt
  | inr (j, found) ↦
      let ((waiting, _), has) = oldest_pending-IsOldest db.jobs j found in
      rw (found, claimed_by, claim) ((λ e. cc (Has-IsTaken id j has a e, waiting)), tt)
]
claimed_by-IsTaken id db _ a = tt

claimed-IsTaken :
    (id : ℕ) (db : Db) (ops : List Op)
    → id < db.next_job
    → All (IsTaken id) db.jobs
    → All (λ m. m ≢ id) (claimed db ops)
unfolding claimed
claimed-IsTaken id db [] lt a = tt
claimed-IsTaken id db (op ∷ ops) lt a =
    let (a', lt') = IsTaken-apply id db op lt a in
    All-append (λ m. m ≢ id) (claimed_by db op) (claimed (apply db op) ops)
      (claimed_by-IsTaken id db op a) (claimed-IsTaken id (apply db op) ops lt' a')

-- What a claim hands out is taken afterwards.
claim-IsTaken :
    (db : Db) (now : ℕ) (j : Job)
    → IsFresh db
    → oldest_pending db.jobs ≡ some j
    → All (IsTaken j.id) (apply db (take now)).jobs × (j.id < (apply db (take now)).next_job)
unfolding apply claim
claim-IsTaken db now j f found =
    let (_, has) = oldest_pending-IsOldest db.jobs j found in
    rw (found, apply, claim)
      (
        All-update_where_made (IsTaken j.id) _ _ (λ k hit e. refl)
            (λ k miss e. cc ((nat_beq_iff k.id j.id).1 e, miss)) db.jobs,
        Has-lt db.next_job j has f,
      )

-- In a queue whose ids lie below its counter, whatever is enqueued, claimed, completed, failed and
-- deleted from then on, in any order and by any number of workers: no job is claimed twice.
pub claimed-IsDistinct : (db : Db) (ops : List Op) → IsFresh db → IsDistinct (claimed db ops)
unfolding claimed claimed_by id_of claim start
claimed-IsDistinct db [] f = tt
claimed-IsDistinct db (take now ∷ ops) f = elim (Option-cases (oldest_pending db.jobs)) [
  | inl nothing ↦
      rw (nothing, claim)
        (claimed-IsDistinct (apply db (take now)) ops (IsFresh-apply db (take now) f))
  | inr (j, found) ↦
      let (taken, lt) = claim-IsTaken db now j f found in
      rw (found, claim)
        (
          claimed-IsTaken j.id (apply db (take now)) ops lt taken,
          claimed-IsDistinct (apply db (take now)) ops (IsFresh-apply db (take now) f),
        )
]
claimed-IsDistinct db (op ∷ ops) f = claimed-IsDistinct (apply db op) ops (IsFresh-apply db op f)
