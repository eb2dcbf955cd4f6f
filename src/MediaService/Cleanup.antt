-- ===== src/MediaService/Cleanup.antt =====
-- service/media.go: which rows and files Cleanup removes.
use sharm.Common.{
  ℕ, ◌/◌, ◌&&◌, not, nat_eq, ap, ◌≡◌, refl, sym, subst, ◌∙◌, Bool, false, ◌||◌, List, [], ◌∷◌, ◌++◌,
  Text, ◌==◌, text_eq, any, arith, Bool-cases, inl, inr, ltb,
}
use mathlib.Core.Path.{fun_ext}
use mathlib.Core.List.{append_assoc, append-nil}
use sharm.Domain.{Media, Variant, Job}
use sharm.Store.{Db, Medium, select, delete_where}
use sharm.Store.Rows.{Without, delete_where-Without, select-Without}
use sharm.Store.Media.{with_variants, delete_media, Times, text_before, list_expired}
use sharm.World.{World, ok, ◌>>◌, ignore, monad}
use sharm.MediaService.Deletion.{
  delete_media-db, calm, named, paths, remove_variants_lem, store_delete_lem,
}
use sharm.MediaService.{remove_media, remove_all, cleanup}

-- The files of a media, in the order in which the cleanup removes them.
abbrev pub files_of : Media → List Text
files_of m = named (paths m.variants) ++ (m.original_path ∷ m.converted_path ∷ m.thumb_path ∷ [])

remove_media_lem :
    (m : Media) (w : World)
    → remove_media m (calm w) ≡ (
      ok tt,
      record w {
        outcomes = [];
        db = (delete_media m.id w.db).1;
        removed = w.removed ++ files_of m;
      },
    )
unfolding monad remove_media
remove_media_lem m w =
    let gone = w.removed ++ named (paths m.variants) in
    let one = λ (p : Text). p ∷ [] in
    let w' = record w {
      removed = gone ++ one m.original_path ++ one m.converted_path ++ one m.thumb_path;
    } in
    rw (remove_variants_lem m.variants (calm w), ignore, store_delete_lem m.id w')
      (rw
        (
          append_assoc (gone ++ one m.original_path) (one m.converted_path) (one m.thumb_path),
          append_assoc gone (one m.original_path) (m.converted_path ∷ m.thumb_path ∷ []),
          append_assoc w.removed (named (paths m.variants))
              (m.original_path ∷ m.converted_path ∷ m.thumb_path ∷ []),
        )
        refl)

abbrev pub files_of_all : List Media → List Text
files_of_all [] = []
files_of_all (m ∷ ms) = files_of m ++ files_of_all ms

unfoldable delete_each : List Media → Db → Db
delete_each [] db = db
delete_each (m ∷ ms) db = delete_each ms (delete_media m.id db).1

remove_all_lem :
    (ms : List Media) (w : World)
    → remove_all ms (calm w) ≡ (
      ok tt,
      record w { outcomes = []; db = delete_each ms w.db; removed = w.removed ++ files_of_all ms },
    )
unfolding remove_all delete_each monad
remove_all_lem [] w = rw (append-nil w.removed) refl
remove_all_lem (m ∷ ms) w =
    let w' = record w { db = (delete_media m.id w.db).1; removed = w.removed ++ files_of m } in
    rw (remove_media_lem m w, ◌>>◌)
      (remove_all_lem ms w' ∙ rw (append_assoc w.removed (files_of m) (files_of_all ms)) refl)

-- An id of the media of a list.
abbrev keeps : List Media → Text → Bool
keeps ms id = any (λ (m : Media). id == m.id) ms

delete_where_twice :
    {A : Type 0} (p q : A → Bool) (rs : List A)
    → delete_where q (delete_where p rs) ≡ delete_where (λ r. p r || q r) rs
unfolding delete_where
delete_where_twice p q [] = refl
delete_where_twice p q (r ∷ rs) = ground (arith, delete_where_twice p q rs)

delete_where_nothing : {A : Type 0} (rs : List A) → delete_where (λ r. false) rs ≡ rs
unfolding delete_where
delete_where_nothing [] = refl
delete_where_nothing (r ∷ rs) = rw (delete_where_nothing rs) refl

-- A database without what belongs to the ids that pass a test.
abbrev without_ids : (Text → Bool) → Db → Db
without_ids gone db = record db {
  media = delete_where (λ (r : Medium). gone r.id) db.media;
  variants = delete_where (λ (v : Variant). gone v.media_id) db.variants;
  jobs = delete_where (λ (j : Job). gone j.media_id) db.jobs;
}

delete_each-without_ids :
    (ms : List Media) (db : Db) → delete_each ms db ≡ without_ids (keeps ms) db
unfolding delete_each
delete_each-without_ids [] db =
    rw
      (
        delete_where_nothing db.media,
        delete_where_nothing db.variants,
        delete_where_nothing db.jobs,
      )
      refl
delete_each-without_ids (m ∷ ms) db =
    delete_each-without_ids ms (delete_media m.id db).1
    ∙ rw
        (
          delete_media-db m.id db,
          delete_where_twice (λ (r : Medium). r.id == m.id) (λ r. keeps ms r.id) db.media,
          delete_where_twice (λ (v : Variant). v.media_id == m.id) (λ v. keeps ms v.media_id)
              db.variants,
          delete_where_twice (λ (j : Job). j.media_id == m.id) (λ j. keeps ms j.media_id) db.jobs,
        )
        refl

module _ (expired : Medium → Bool) (db : Db) where
  -- The ids of the expired rows.
  keeps_lem :
      (id : Text) (rs : List Medium)
      → keeps (with_variants db (select expired rs)) id ≡ any (λ s. id == s.id && expired s) rs
  unfolding with_variants select
  keeps_lem id [] = refl
  keeps_lem id (s ∷ rs) = elim (Bool-cases (expired s)) [
    | inl old ↦ rw (old, keeps_lem id rs) (ground arith)
    | inr fresh ↦ rw (fresh, keeps_lem id rs) (ground arith)
  ]

-- In whole seconds, as the database has its time.
abbrev pub second : ℕ
second = 1000000000

abbrev pub has_expired : ℕ → Medium → Bool
has_expired now r = ltb (r.expires_at / second) (now / second)

-- An id that a row has which has expired.
abbrev pub is_gone : ℕ → List Medium → Text → Bool
is_gone now rows id = any (λ (s : Medium). id == s.id && has_expired now s) rows

-- What the cleanup is to have done.
pub record IsCleaned (before after : World) : Type 0 where
  pub rows :
      Without
        (λ (r : Medium). is_gone before.now before.db.media r.id)
        before.db.media
        after.db.media
  pub variants :
      Without
        (λ (v : Variant). is_gone before.now before.db.media v.media_id)
        before.db.variants
        after.db.variants
  pub jobs :
      Without
        (λ (j : Job). is_gone before.now before.db.media j.media_id)
        before.db.jobs
        after.db.jobs
  pub removed :
      (gone : List Medium) × Without
        (λ (r : Medium). not (has_expired before.now r))
        before.db.media
        gone
      × (after.removed ≡ before.removed ++ files_of_all (with_variants before.db gone))

module _ (times : Times) (w : World) where
  cleanup_lem :
      let ms = list_expired times w.now w.db in
      cleanup times (calm w) ≡ (
        ok tt,
        record w {
          outcomes = [];
          db = delete_each ms w.db;
          removed = w.removed ++ files_of_all ms;
        },
      )
  unfolding cleanup monad
  cleanup_lem = remove_all_lem (list_expired times w.now w.db) w

  calm-IsCleaned :
      ((a b : ℕ) → text_before (times.stored a) (times.datetime b) ≡ ltb (a / second) (b / second))
      → ((cleanup times (calm w)).0 ≡ ok tt) × IsCleaned (calm w) (cleanup times (calm w)).1
  unfolding list_expired
  calm-IsCleaned order =
      let expired =
        λ (r : Medium). text_before (times.stored r.expires_at) (times.datetime w.now) in
      let same : expired ≡ has_expired w.now = fun_ext (λ r. order r.expires_at w.now) in
      let ms = list_expired times w.now w.db in
      let gone = select (has_expired w.now) w.db.media in
      let listed : ms ≡ with_variants w.db gone =
        ap (λ test. with_variants w.db (select test w.db.media)) same in
      let test = is_gone w.now w.db.media in
      let kept : delete_each ms w.db ≡ without_ids test w.db =
        delete_each-without_ids ms w.db
        ∙ ap (λ t. without_ids t w.db)
            (fun_ext (λ id.
              ap (λ l. keeps l id) listed ∙ keeps_lem (has_expired w.now) w.db id w.db.media)) in
      rw (cleanup_lem, kept)
        (
          refl,
          record {
            rows = delete_where-Without (λ (r : Medium). test r.id) w.db.media;
            variants = delete_where-Without (λ (v : Variant). test v.media_id) w.db.variants;
            jobs = delete_where-Without (λ (j : Job). test j.media_id) w.db.jobs;
            removed = (
              gone,
              select-Without (has_expired w.now) w.db.media,
              ap (λ l. w.removed ++ files_of_all l) listed,
            );
          },
        )

-- Where no call to the outside fails, and the text that is stored for a time comes before that of
-- datetime exactly if its second is an earlier one, the cleanup succeeds. It deletes exactly the rows
-- whose id is that of a row whose second of expiry has passed, with the variants and the jobs of
-- these ids, and keeps the others in their order; and it removes the files of each media that has
-- expired, its variants' files included, in the order of the table.
pub cleanup-list_expired :
    (times : Times) (w : World)
    → w.outcomes ≡ []
    → ((a b : ℕ) → text_before (times.stored a) (times.datetime b) ≡ ltb (a / second) (b / second))
    → ((cleanup times w).0 ≡ ok tt) × IsCleaned w (cleanup times w).1
cleanup-list_expired times w h order =
    subst
      (λ os.
        let w' = record w { outcomes = os } in
        ((cleanup times w').0 ≡ ok tt) × IsCleaned w' (cleanup times w').1)
      (sym h) (calm-IsCleaned times w order)
