-- ===== src/MediaService/Queued.antt =====
-- media.go, Upload: the variants and jobs of a new media.
use sharm.Common.{
  ℤ, not, ◌&&◌, ◌⊎◌, false, ◌+◌, ◌≢◌, ℕ, ◌≡◌, refl, sym, ◌∙◌, ap, true, false, none, List, [], ◌∷◌,
  ◌++◌, map, Text, ◌==◌, text_eq, any, Bool-cases, inl, inr,
}
use mathlib.Core.List.{append_assoc, append-nil}
use sharm.Domain.{Media, MediaType, Variant, VariantStatus, Job, JobType, JobStatus, Codec, h264}
use sharm.Store.{Db}
use sharm.Store.Variants.{save_variant}
use sharm.Store.Jobs.{enqueue, has_media}
use sharm.World.{World, ok, ◌>>=◌, ◌>>◌, monad}
use sharm.MediaService.Upload.{
  is_image, is_video, with_h264, add_variants, start_codecs, start_media,
}

-- What is told of a variant and of a job: whose it is, what is to be made, and how far it is.
abbrev pub variant_view : Variant → Text × Codec × VariantStatus
variant_view v = (v.media_id, v.codec, v.status)

abbrev pub job_view : Job → Text × JobType × Codec × ℤ × JobStatus
job_view j = (j.media_id, j.type, j.codec, j.fps, j.status)

abbrev pub waiting_variant : Text → Codec → Text × Codec × VariantStatus
waiting_variant id c = (id, c, VariantStatus.pending)

abbrev pub waiting_job : Text → ℤ → Codec → Text × JobType × Codec × ℤ × JobStatus
waiting_job id fps c = (id, JobType.convert, c, fps, JobStatus.pending)

-- The database afterwards has these variants and jobs more.
pub record HasQueued (id : Text) (fps : ℤ) (cs : List Codec) (before after : Db) : Type 0 where
  pub media : after.media ≡ before.media
  pub variants :
      map variant_view after.variants
      ≡ map variant_view before.variants ++ map (waiting_variant id) cs
  pub jobs : map job_view after.jobs ≡ map job_view before.jobs ++ map (waiting_job id fps) cs

map-append : {A B : Type 0} (f : A → B) (xs ys : List A) → map f (xs ++ ys) ≡ map f xs ++ map f ys
map-append f [] ys = refl
map-append f (x ∷ xs) ys = ap (λ zs. f x ∷ zs) (map-append f xs ys)

one_more :
    {A B : Type 0} (f : A → B) (xs ys : List A) (x : A) (rest : List B)
    → map f ys ≡ map f (xs ++ (x ∷ [])) ++ rest
    → map f ys ≡ map f xs ++ (f x ∷ rest)
one_more f xs ys x rest h =
    h ∙ ap (λ zs. zs ++ rest) (map-append f xs (x ∷ [])) ∙ append_assoc (map f xs) (f x ∷ []) rest

add_variants-HasQueued :
    (id : Text) (fps : ℤ) (cs : List Codec) (w : World)
    → has_media id w.db.media ≡ true
    → (db : Db) × (add_variants id fps cs (record w { outcomes = [] })
        ≡ (ok tt, record w { outcomes = []; db = db }))
      × HasQueued id fps cs w.db db
unfolding add_variants monad save_variant enqueue
add_variants-HasQueued id fps [] w h = (
  w.db,
  refl,
  record {
    media = refl;
    variants = sym (append-nil (map variant_view w.db.variants));
    jobs = sym (append-nil (map job_view w.db.jobs));
  },
)
add_variants-HasQueued id fps (c ∷ cs) w h =
    let v : Variant = record {
      id = w.db.next_variant;
      media_id = id;
      codec = c;
      path = [];
      file_size = 0;
      width = 0;
      height = 0;
      status = VariantStatus.pending;
      error_message = [];
      created_at = w.now;
    } in
    let j : Job = record {
      id = w.db.next_job;
      media_id = id;
      type = JobType.convert;
      codec = c;
      fps = fps;
      status = JobStatus.pending;
      error_message = [];
      attempts = 0;
      created_at = w.now;
      started_at = none;
      completed_at = none;
    } in
    let db2 = record w.db {
      variants = w.db.variants ++ (v ∷ []);
      next_variant = w.db.next_variant + 1;
      jobs = w.db.jobs ++ (j ∷ []);
      next_job = w.db.next_job + 1;
    } in
    let (db, e, q) = add_variants-HasQueued id fps cs (record w { db = db2 }) h in
    (
      db,
      rw (h, ◌>>=◌, ◌>>◌, h) e,
      record {
        media = q.media;
        variants = one_more variant_view w.db.variants db.variants v _ q.variants;
        jobs = one_more job_view w.db.jobs db.jobs j _ q.jobs;
      },
    )

-- The codecs that a media is to be made in: those that were asked for, and H264 after them for a video
-- if it is not among them.
pub data IsCompleted (asked : List Codec) : MediaType → List Codec → Type 0 where
  audio : IsCompleted asked MediaType.audio asked
  among : any (λ c. c == h264) asked ≡ true → IsCompleted asked MediaType.video asked
  added :
      any (λ c. c == h264) asked ≡ false → IsCompleted asked MediaType.video (asked ++ (h264 ∷ []))

with_h264-IsCompleted :
    (type : MediaType) (asked : List Codec)
    → type ≢ MediaType.image
    → IsCompleted asked type (with_h264 type asked)
unfolding with_h264
with_h264-IsCompleted MediaType.image asked h = absurd (h refl)
with_h264-IsCompleted MediaType.audio asked h = audio
with_h264-IsCompleted MediaType.video asked h = elim (Bool-cases (any (λ c. c == h264) asked)) [
  | inl there ↦ rw there (among there)
  | inr absent ↦ rw absent (added absent)
]

-- Something is to be made: of a video always, of audio where a codec was asked for.
some_codec :
    (type : MediaType) (asked : List Codec)
    → type ≡ MediaType.video ⊎ (asked ≢ [])
    → with_h264 type asked ≢ []
unfolding with_h264
some_codec type (c ∷ cs) h =
    elim (Bool-cases (is_video type && not (any (λ c. c == h264) (c ∷ cs)))) [
      | inl add ↦ rw add (λ e. cc (e))
      | inr leave ↦ rw leave (λ e. cc (e))
    ]
some_codec type [] (inl video) = rw video (λ e. cc (e))
some_codec type [] (inr there) = absurd (there refl)

not_image : (type : MediaType) → type ≢ MediaType.image → is_image type ≡ false
not_image MediaType.image h = absurd (h refl)
not_image MediaType.video h = refl
not_image MediaType.audio h = refl

start_codecs-HasQueued :
    (size : ℕ) (fps : ℤ) (m : Media) (cs : List Codec) (w : World)
    → has_media m.id w.db.media ≡ true
    → cs ≢ []
    → (db : Db) × (start_codecs size m fps cs (record w { outcomes = [] })
        ≡ (ok m, record w { outcomes = []; db = db }))
      × HasQueued m.id fps cs w.db db
unfolding start_codecs monad
start_codecs-HasQueued size fps m [] w h some_there = absurd (some_there refl)
start_codecs-HasQueued size fps m (c ∷ cs) w h some_there =
    let (db, e, q) = add_variants-HasQueued m.id fps (c ∷ cs) w h in (db, rw (e, ◌>>◌) refl, q)

-- Where no call to the outside fails, a media of the store that is no image is returned as it is, if
-- it is a video or some codecs are asked for; for each of the codecs that were asked for in order,
-- and then H264 for a video if it is not among them, a pending variant and a pending job have been
-- added to the database, and no others.
pub start_media-HasQueued :
    (size : ℕ) (fps : ℤ) (m : Media) (codecs : List Codec) (w : World)
    → has_media m.id w.db.media ≡ true
    → m.type ≢ MediaType.image
    → (m.type ≡ MediaType.video) ⊎ (codecs ≢ [])
    → (cs : List Codec) × IsCompleted codecs m.type cs
      × ((db : Db) × (start_media size m fps codecs (record w { outcomes = [] })
            ≡ (ok m, record w { outcomes = []; db = db }))
          × HasQueued m.id fps cs w.db db)
unfolding start_media
start_media-HasQueued size fps m codecs w h no_image asked =
    let cs = with_h264 m.type codecs in
    let (db, e, q) = start_codecs-HasQueued size fps m cs w h (some_codec m.type codecs asked) in
    (cs, with_h264-IsCompleted m.type codecs no_image, (db, rw (not_image m.type no_image) e, q))
