-- ===== src/Store/Tests.antt =====
-- Runs of the statements on a small database.
use sharm.Common.{
  ◌≡◌, ◌≢◌, ◌↔◌, refl, pos, false, some, none, List, [], ◌∷◌, ◌==◌, text_eq, text, text_beq, All,
  any,
}
use sharm.Domain.{Job, JobType, JobStatus, Variant, MediaType, MediaStatus, av1, h264}
use sharm.Domain.Errors.{ok, err, not_found}
use sharm.Store.{Db, Medium, empty_db, update_where}
use sharm.Store.Jobs.{enqueue, oldest_pending, claim, complete}
use sharm.Store.Jobs.Claims.{Claims, claim-IsAnswer}
use sharm.Store.Jobs.Once.{
  Op, put, take, complete_job, apply, id_of, claimed_by, claimed, IsDistinct, claimed-IsDistinct,
}
use sharm.Store.Media.{get, delete_media}
use sharm.Store.Integrity.{add_variant, exec, IsSound, delete_media_complete, exec-IsSound}

abbrev clip : Medium
clip = record {
  id = text "m";
  type = MediaType.video;
  original_name = text "a.mov";
  original_path = text "/data/a.mov";
  converted_path = [];
  status = MediaStatus.pending;
  codec = [];
  error_message = [];
  retention_days = pos 7;
  file_size = 0;
  width = 0;
  height = 0;
  thumb_path = [];
  created_at = 0;
  expires_at = 700;
  probe_json = [];
}

abbrev stored : Db
stored = record empty_db { media = clip ∷ [] }

abbrev queued : Db
queued = (enqueue (text "m") JobType.convert av1 (pos 0) 5 stored).1

abbrev two_workers : List Op
two_workers =
    put (text "m") JobType.convert av1 (pos 0) 5
    ∷ put (text "m") JobType.convert h264 (pos 0) 5
    ∷ take 6
    ∷ take 7
    ∷ complete_job 1 8
    ∷ take 9
    ∷ []

claim-IsAnswer_example :
    ((j : Job) → (claim 6 queued).0 ≡ some j → (k : Job) × Claims 6 queued k j (claim 6 queued).1)
    × ((claim 6 queued).0 ≡ none → (claim 6 queued).1 ≡ queued)
    × (((claim 6 queued).0 ≡ none) ↔ All (λ (j : Job). j.status ≢ JobStatus.pending) queued.jobs)
claim-IsAnswer_example = claim-IsAnswer 6 queued

two_workers-claimed : claimed stored two_workers ≡ 1 ∷ 2 ∷ []
unfolding claimed claimed_by id_of claim oldest_pending apply enqueue text_beq update_where complete
two_workers-claimed = refl

claimed-IsDistinct_example : IsDistinct (claimed stored two_workers)
claimed-IsDistinct_example = claimed-IsDistinct stored two_workers tt

delete_media_complete_example :
    ((delete_media (text "m") queued).0 ≡ ok tt)
    × (get (text "m") (delete_media (text "m") queued).1 ≡ err not_found)
    × (any (λ (v : Variant). v.media_id == text "m") (delete_media (text "m") queued).1.variants
        ≡ false)
    × (any (λ (j : Job). j.media_id == text "m") (delete_media (text "m") queued).1.jobs ≡ false)
delete_media_complete_example = delete_media_complete (text "m") queued

exec-IsSound_example : IsSound (exec (add_variant (text "m") av1 5) stored)
exec-IsSound_example =
    exec-IsSound (add_variant (text "m") av1 5) stored
      (record { jobs_known = tt; variants_known = tt })
