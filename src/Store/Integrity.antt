-- ===== src/Store/Integrity.antt =====
-- store.go and jobqueue.go: the foreign keys of the tables, and the deletion of a media.
use sharm.Common.{
  [], ◌∷◌, ℤ, ℕ, ◌≡◌, refl, ◌∙◌, Bool, true, false, List, Text, ◌==◌, text_eq, text_beq_iff, nat_eq,
  All, All-append, All-map, any, arith, Option-cases, Bool-cases, inl, inr,
}
use sharm.Domain.{Media, MediaStatus, Variant, VariantStatus, Job, JobType, Codec}
use sharm.Domain.Errors.{not_found, ok, err}
use sharm.Store.{Db, Medium, update_where, delete_where}
use sharm.Store.Rows.{
  All-update_where, All-delete_where, All-delete_where_left, any-delete_where,
  select_one-delete_where, any-append_left, any-update_where, any-delete_where_other,
}
use sharm.Store.Jobs.{
  has_media, enqueue, claim, oldest_pending, complete, fail, reset_stalled, delete_jobs_by_media,
}
use sharm.Store.Media.{
  save, get, update_status, set_status, update_done, set_done, update_probe_json, set_probe_json,
  delete_media, delete_row,
}
use sharm.Store.Variants.{
  save_variant, update_variant_status, update_variant_done, delete_variants_by_media,
}

-- Delete of a media always gets past the foreign keys, and leaves no row, no variant and no job of
-- the media behind.
pub delete_media_complete :
    (id : Text) (db : Db)
    → ((delete_media id db).0 ≡ ok tt)
      × (get id (delete_media id db).1 ≡ err not_found)
      × (any (λ (v : Variant). v.media_id == id) (delete_media id db).1.variants ≡ false)
      × (any (λ (j : Job). j.media_id == id) (delete_media id db).1.jobs ≡ false)
unfolding delete_media delete_row delete_jobs_by_media delete_variants_by_media get
delete_media_complete id db =
    let jobs = any-delete_where (λ (j : Job). j.media_id == id) db.jobs in
    let rows = select_one-delete_where (λ (r : Medium). r.id == id) db.media in
    let variants =
      any-delete_where (λ (v : Variant). v.media_id == id)
        (delete_where (λ (v : Variant). v.media_id == id) db.variants) in
    ground (arith, jobs, rows, variants)

-- The statements that write the tables with foreign keys; the deletion of a media as a whole, and each of
-- its three statements.
pub data Statement : Type 0 where
  save_media : Media → Statement
  media_status : Text → MediaStatus → Text → Statement
  media_done : Media → Statement
  media_probe : Text → Text → Statement
  remove_media remove_jobs remove_variants remove_row : Text → Statement
  add_variant : Text → Codec → ℕ → Statement
  variant_status : ℕ → VariantStatus → Text → Statement
  variant_done : Variant → Statement
  enqueue_job : Text → JobType → Codec → ℤ → ℕ → Statement
  claim_job : ℕ → Statement
  complete_job : ℕ → ℕ → Statement
  fail_job : ℕ → Text → ℕ → Statement
  reset_jobs : Statement

unfoldable pub exec : Statement → Db → Db
exec (save_media m) db = (save m db).1
exec (media_status id status message) db = update_status id status message db
exec (media_done m) db = update_done m db
exec (media_probe id json) db = update_probe_json id json db
exec (remove_media id) db = (delete_media id db).1
exec (remove_jobs id) db = delete_jobs_by_media id db
exec (remove_variants id) db = delete_variants_by_media id db
exec (remove_row id) db = (delete_row id db).1
exec (add_variant id codec now) db = (save_variant id codec now db).1
exec (variant_status id status message) db = update_variant_status id status message db
exec (variant_done v) db = update_variant_done v db
exec (enqueue_job id type codec fps now) db = (enqueue id type codec fps now db).1
exec (claim_job now) db = (claim now db).1
exec (complete_job id now) db = complete id now db
exec (fail_job id message now) db = fail id message now db
exec reset_jobs db = reset_stalled db

abbrev IsKnown : List Medium → Text → Type 0
IsKnown rows id = has_media id rows ≡ true

abbrev JobIsKnown : List Medium → Job → Type 0
JobIsKnown rows j = IsKnown rows j.media_id

abbrev VariantIsKnown : List Medium → Variant → Type 0
VariantIsKnown rows v = IsKnown rows v.media_id

-- Every job and every variant belongs to a media of the table.
pub record IsSound (db : Db) : Type 0 where
  pub jobs_known : All (JobIsKnown db.media) db.jobs
  pub variants_known : All (VariantIsKnown db.media) db.variants

-- More media known is as sound.
widen :
    (rows : List Medium) (db : Db)
    → ((id : Text) → IsKnown db.media id → IsKnown rows id)
    → IsSound db
    → IsSound (record db { media = rows })
widen rows db more s = record {
  jobs_known = All-map (λ (j : Job) h. more j.media_id h) db.jobs s.jobs_known;
  variants_known = All-map (λ (v : Variant) h. more v.media_id h) db.variants s.variants_known;
}

update-IsKnown :
    (test : Medium → Bool) (set : Medium → Medium)
    → ((r : Medium) → (set r).id ≡ r.id)
    → (rows : List Medium) (id : Text) → IsKnown rows id
    → IsKnown (update_where test set rows) id
update-IsKnown test set same rows id h =
    any-update_where (λ (r : Medium). r.id == id) test set (λ r. rw (same r)) rows ∙ h

-- A media other than the deleted one stays known.
remains :
    (id k : Text) (rows : List Medium)
    → IsKnown rows k
    → (k == id) ≡ false
    → IsKnown (delete_where (λ (r : Medium). r.id == id) rows) k
remains id k rows known other =
    any-delete_where_other (λ (r : Medium). r.id == k) (λ (r : Medium). r.id == id)
      (λ r e. ground (arith, text_beq_iff r.id k, text_beq_iff r.id id, text_beq_iff k id)) rows
      known

delete_jobs-IsSound : (id : Text) (db : Db) → IsSound db → IsSound (delete_jobs_by_media id db)
unfolding delete_jobs_by_media
delete_jobs-IsSound id db s = record {
  jobs_known = All-delete_where (JobIsKnown db.media) _ db.jobs s.jobs_known;
  variants_known = s.variants_known;
}

delete_variants-IsSound :
    (id : Text) (db : Db) → IsSound db → IsSound (delete_variants_by_media id db)
unfolding delete_variants_by_media
delete_variants-IsSound id db s = record {
  jobs_known = s.jobs_known;
  variants_known = All-delete_where (VariantIsKnown db.media) _ db.variants s.variants_known;
}

-- Jobs that do not refer to a row do without it.
jobs_remain :
    (id : Text) (rows : List Medium) (js : List Job)
    → any (λ (j : Job). j.media_id == id) js ≡ false
    → All (JobIsKnown rows) js
    → All (JobIsKnown (delete_where (λ (r : Medium). r.id == id) rows)) js
jobs_remain id rows [] h a = tt
jobs_remain id rows (j ∷ js) h a =
    (remains id j.media_id rows a.0 (ground arith), jobs_remain id rows js (ground arith) a.1)

delete_row-IsSound : (id : Text) (db : Db) → IsSound db → IsSound (delete_row id db).1
unfolding delete_row
delete_row-IsSound id db s = elim (Bool-cases (any (λ (j : Job). j.media_id == id) db.jobs)) [
  | inl held ↦ rw (delete_row, held) s
  | inr free ↦
      let left = delete_where (λ (r : Medium). r.id == id) db.media in
      rw (delete_row, free)
        (record {
          jobs_known = jobs_remain id db.media db.jobs free s.jobs_known;
          variants_known =
              All-delete_where_left (VariantIsKnown db.media) (VariantIsKnown left) _
                (λ v known other. remains id v.media_id db.media known other) db.variants
                s.variants_known;
        })
]

delete_media-IsSound : (id : Text) (db : Db) → IsSound db → IsSound (delete_media id db).1
unfolding delete_media
delete_media-IsSound id db s =
    delete_row-IsSound id _ (delete_variants-IsSound id _ (delete_jobs-IsSound id db s))

with_jobs :
    (db : Db)
    → IsSound db
    → (test : Job → Bool) (set : Job → Job)
    → ((j : Job) → JobIsKnown db.media j → JobIsKnown db.media (set j))
    → IsSound (record db { jobs = update_where test set db.jobs })
with_jobs db s test set keep = record {
  jobs_known = All-update_where (JobIsKnown db.media) test set keep db.jobs s.jobs_known;
  variants_known = s.variants_known;
}

-- Whatever statement runs, every job and every variant still belongs to a media of the table.
pub exec-IsSound : (q : Statement) (db : Db) → IsSound db → IsSound (exec q db)
unfolding exec save update_status update_done update_probe_json save_variant update_variant_status
    update_variant_done enqueue claim complete fail reset_stalled set_status set_done set_probe_json
exec-IsSound (save_media m) db s = elim (Bool-cases (has_media m.id db.media)) [
  | inl there ↦ rw (there, exec, save) s
  | inr new ↦ rw (new, exec, save) (widen _ db (λ id h. any-append_left _ db.media _ h) s)
]
exec-IsSound (media_status id status message) db s =
    widen _ db (update-IsKnown _ _ (λ r. refl) db.media) s
exec-IsSound (media_done m) db s = widen _ db (update-IsKnown _ _ (λ r. refl) db.media) s
exec-IsSound (media_probe id json) db s = widen _ db (update-IsKnown _ _ (λ r. refl) db.media) s
exec-IsSound (remove_media id) db s = delete_media-IsSound id db s
exec-IsSound (remove_jobs id) db s = delete_jobs-IsSound id db s
exec-IsSound (remove_variants id) db s = delete_variants-IsSound id db s
exec-IsSound (remove_row id) db s = delete_row-IsSound id db s
exec-IsSound (add_variant id codec now) db s = elim (Bool-cases (has_media id db.media)) [
  | inr unknown ↦ rw (unknown, exec, save_variant) s
  | inl known ↦
      rw (known, exec, save_variant)
        (record {
          jobs_known = s.jobs_known;
          variants_known =
              All-append (VariantIsKnown db.media) db.variants _ s.variants_known (known, tt);
        })
]
exec-IsSound (variant_status id status message) db s = record {
  jobs_known = s.jobs_known;
  variants_known =
      All-update_where (VariantIsKnown db.media) _ _ (λ v h. h) db.variants s.variants_known;
}
exec-IsSound (variant_done w) db s = record {
  jobs_known = s.jobs_known;
  variants_known =
      All-update_where (VariantIsKnown db.media) _ _ (λ v h. h) db.variants s.variants_known;
}
exec-IsSound (enqueue_job id type codec fps now) db s = elim (Bool-cases (has_media id db.media)) [
  | inr unknown ↦ rw (unknown, exec, enqueue) s
  | inl known ↦
      rw (known, exec, enqueue)
        (record {
          jobs_known = All-append (JobIsKnown db.media) db.jobs _ s.jobs_known (known, tt);
          variants_known = s.variants_known;
        })
]
exec-IsSound (claim_job now) db s = elim (Option-cases (oldest_pending db.jobs)) [
  | inl nothing ↦ rw (nothing, exec, claim) s
  | inr (j, found) ↦ rw (found, exec, claim) (with_jobs db s _ _ (λ k h. h))
]
exec-IsSound (complete_job id now) db s = with_jobs db s _ _ (λ k h. h)
exec-IsSound (fail_job id message now) db s = with_jobs db s _ _ (λ k h. h)
exec-IsSound reset_jobs db s = with_jobs db s _ _ (λ k h. h)
