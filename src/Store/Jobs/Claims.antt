-- ===== src/Store/Jobs/Claims.antt =====
-- jobqueue.go: which job Claim takes.
use sharm.Common.{
  ℕ, ◌+◌, ◌≤◌, ◌≡◌, ◌≢◌, ◌==◌, map, if◌then◌else◌, All-map, refl, subst, ltb→lt, ◌↔◌, true, false,
  none, some, List, [], ◌∷◌, text_eq, nat_eq, All, arith, ltb, Option-cases, Bool-cases, inl, inr,
}
use sharm.Domain.{Job, JobStatus}
use sharm.Store.{Db}
use sharm.Store.Rows.{update_where-map}
use sharm.Store.Jobs.{is_pending, older, oldest_pending, start, claim}

-- A job of the list with a property.
pub data Has (P : Job → Type 0) : List Job → Type 0 where
  here : {j : Job} {js : List Job} → P j → Has P (j ∷ js)
  there : {j : Job} {js : List Job} → Has P js → Has P (j ∷ js)

abbrev pub IsOldest : Job → List Job → Type 0
IsOldest j js =
    (is_pending j.status ≡ true)
    × All (λ (k : Job). is_pending k.status ≡ true → j.created_at ≤ k.created_at) js

All-later :
    (j k : Job) (js : List Job)
    → j.created_at ≤ k.created_at
    → All (λ (m : Job). is_pending m.status ≡ true → k.created_at ≤ m.created_at) js
    → All (λ (m : Job). is_pending m.status ≡ true → j.created_at ≤ m.created_at) js
All-later j k [] h a = tt
All-later j k (m ∷ js) h a = (λ p. let below = a.0 p in omega arith, All-later j k js h a.1)

oldest_pending-none :
    (js : List Job) → (oldest_pending js ≡ none) ↔ All (λ (j : Job). is_pending j.status ≡ false) js
unfolding oldest_pending
oldest_pending-none [] = ground arith
oldest_pending-none (j ∷ js) = ground (arith, oldest_pending-none js)

vacuous :
    (n : ℕ) (js : List Job)
    → All (λ (j : Job). is_pending j.status ≡ false) js
    → All (λ (m : Job). is_pending m.status ≡ true → n ≤ m.created_at) js
vacuous n [] a = tt
vacuous n (j ∷ js) a = (λ p. cc (a.0), vacuous n js a.1)

abbrev pub IsAnswer : List Job → Job → Type 0
IsAnswer js j = IsOldest j js × Has (λ k. k ≡ j) js

pub oldest_pending-IsOldest : (js : List Job) (j : Job) → oldest_pending js ≡ some j → IsAnswer js j
unfolding oldest_pending
oldest_pending-IsOldest [] j h = cc
oldest_pending-IsOldest (k ∷ js) j h = elim (Bool-cases (is_pending k.status)) [
  | inr idle ↦
      let ((open_, old), has) = oldest_pending-IsOldest js j (ground arith) in
      ((open_, (λ p. cc (idle), old)), there has)
  | inl open_ ↦ elim (Option-cases (oldest_pending js)) [
    | inl nothing ↦
        let same : k ≡ j = ground arith in
        subst (IsAnswer (k ∷ js)) same (
          (open_, (λ p. omega arith, vacuous k.created_at js ((oldest_pending-none js).0 nothing))),
          here refl,
        )
    | inr (m, found) ↦
        let ((waiting, old), has) = oldest_pending-IsOldest js m found in
        elim (Bool-cases (ltb m.created_at k.created_at)) [
          | inl newer ↦
              let same : m ≡ j = ground arith in
              subst (IsAnswer (k ∷ js)) same
                ((waiting, (λ p. omega (arith, ltb→lt m.created_at k.created_at), old)), there has)
          | inr older ↦
              let same : k ≡ j = ground arith in
              subst (IsAnswer (k ∷ js)) same
                ((open_, (λ p. omega arith, All-later k m js (ground arith) old)), here refl)
        ]
  ]
]

-- A job as it is once it has been claimed.
abbrev pub as_claimed : ℕ → Job → Job
as_claimed now m = record m {
  status = JobStatus.running;
  started_at = some now;
  attempts = m.attempts + 1;
}

-- A claim of the job `k` of the queue, which comes back as `j`.
pub record Claims (now : ℕ) (before : Db) (k j : Job) (after : Db) : Type 0 where
  pub waiting : k.status ≡ JobStatus.pending
  pub queued : Has (λ m. m ≡ k) before.jobs
  pub oldest :
      All (λ (m : Job). m.status ≡ JobStatus.pending → k.created_at ≤ m.created_at) before.jobs
  pub result : j ≡ as_claimed now k
  pub database : after ≡ record before {
    jobs = map (λ (m : Job). if m.id == k.id then as_claimed now m else m) before.jobs;
  }

is_pending_iff : (s : JobStatus) → (is_pending s ≡ true) ↔ (s ≡ JobStatus.pending)
is_pending_iff JobStatus.pending = ground arith
is_pending_iff JobStatus.running = ground arith
is_pending_iff JobStatus.done = ground arith
is_pending_iff JobStatus.failed = ground arith

not_pending_iff : (s : JobStatus) → (is_pending s ≡ false) ↔ (s ≢ JobStatus.pending)
not_pending_iff JobStatus.pending = ground arith
not_pending_iff JobStatus.running = ground arith
not_pending_iff JobStatus.done = ground arith
not_pending_iff JobStatus.failed = ground arith

oldest-spelled :
    (k : Job) (js : List Job)
    → All (λ (m : Job). is_pending m.status ≡ true → k.created_at ≤ m.created_at) js
    → All (λ (m : Job). m.status ≡ JobStatus.pending → k.created_at ≤ m.created_at) js
oldest-spelled k [] a = tt
oldest-spelled k (m ∷ js) a = (λ p. a.0 ((is_pending_iff m.status).1 p), oldest-spelled k js a.1)

claim_step :
    (now : ℕ) (db : Db) (j : Job)
    → (claim now db).0 ≡ some j
    → (k : Job) × Claims now db k j (claim now db).1
unfolding claim start
claim_step now db j h = elim (Option-cases (oldest_pending db.jobs)) [
  | inl nothing ↦ absurd (ground arith)
  | inr (k, found) ↦
      let ((waiting, old), has) = oldest_pending-IsOldest db.jobs k found in
      (
        k,
        record {
          waiting = (is_pending_iff k.status).0 waiting;
          queued = has;
          oldest = oldest-spelled k db.jobs old;
          result = ground arith;
          database =
              rw (claim, found, update_where-map (λ m. m.id == k.id) (start now) db.jobs) refl;
        },
      )
]

claim-none_kept : (now : ℕ) (db : Db) → (claim now db).0 ≡ none → (claim now db).1 ≡ db
unfolding claim
claim-none_kept now db h = elim (Option-cases (oldest_pending db.jobs)) [
  | inl nothing ↦ rw (claim, nothing) refl
  | inr (k, found) ↦ absurd (ground arith)
]

claim-none :
    (now : ℕ) (db : Db)
    → ((claim now db).0 ≡ none) ↔ All (λ (j : Job). j.status ≢ JobStatus.pending) db.jobs
unfolding claim
claim-none now db =
    let empty : ((claim now db).0 ≡ none) ↔ (oldest_pending db.jobs ≡ none) = ground arith in
    (
      λ h.
          All-map (λ (m : Job) idle. (not_pending_iff m.status).0 idle) db.jobs
            ((oldest_pending-none db.jobs).0 (empty.0 h)),
      λ a. empty.1 (
          (oldest_pending-none db.jobs).1
            (All-map (λ (m : Job) idle. (not_pending_iff m.status).1 idle) db.jobs a)),
    )

-- A claim takes a pending job of the queue that no pending job is older than; in what it returns
-- and in the table, the job is running from now on, with one attempt more, and nothing else of the
-- database has changed. It comes back empty exactly when no job is pending, and changes nothing then.
pub claim-IsAnswer :
    (now : ℕ) (db : Db)
    → ((j : Job) → (claim now db).0 ≡ some j → (k : Job) × Claims now db k j (claim now db).1)
      × ((claim now db).0 ≡ none → (claim now db).1 ≡ db)
      × (((claim now db).0 ≡ none) ↔ All (λ (j : Job). j.status ≢ JobStatus.pending) db.jobs)
claim-IsAnswer now db = (claim_step now db, claim-none_kept now db, claim-none now db)
