-- ===== src/MediaService/Deletion.antt =====
-- service/media.go and store.go: the steps of a deletion where no call to the outside fails.
use sharm.Common.{
  ◌≡◌, refl, ◌∙◌, List, [], ◌∷◌, ◌++◌, Text, ◌==◌, text_eq, if◌then◌else◌, Bool-cases, inl, inr,
}
use mathlib.Core.List.{append_assoc, append-nil}
use sharm.Domain.{Variant, Job}
use sharm.Store.{Db, Medium, delete_where}
use sharm.Store.Rows.{any-delete_where, delete_where_again}
use sharm.Store.Jobs.{delete_jobs_by_media}
use sharm.Store.Variants.{delete_variants_by_media}
use sharm.Store.Media.{delete_row, delete_media}
use sharm.World.{World, ok, ◌>>◌, monad}
use sharm.MediaService.{store_delete, remove_variants}

-- A world in which no call to the outside fails.
abbrev pub calm : World → World
calm w = record w { outcomes = [] }

-- The paths that are not empty.
abbrev pub named : List Text → List Text
named [] = []
named (p ∷ ps) = let rest = named ps in if p == [] then rest else p ∷ rest

abbrev pub paths : List Variant → List Text
paths [] = []
paths (v ∷ vs) = v.path ∷ paths vs

pub remove_variants_lem :
    (vs : List Variant) (w : World)
    → remove_variants vs w ≡ (ok tt, record w { removed = w.removed ++ named (paths vs) })
unfolding monad remove_variants
remove_variants_lem [] w = rw (append-nil w.removed) refl
remove_variants_lem (v ∷ vs) w = elim (Bool-cases (v.path == [])) [
  | inl none_there ↦ rw (none_there, ◌>>◌) (remove_variants_lem vs w)
  | inr there ↦
      rw (there, ◌>>◌)
        (remove_variants_lem vs (record w { removed = w.removed ++ (v.path ∷ []) })
          ∙ rw (append_assoc w.removed (v.path ∷ []) (named (paths vs))) refl)
]

pub store_delete_lem :
    (id : Text) (w : World)
    → store_delete id (calm w) ≡ (ok tt, record w { outcomes = []; db = (delete_media id w.db).1 })
unfolding monad store_delete delete_media delete_row delete_jobs_by_media delete_variants_by_media
store_delete_lem id w = rw (any-delete_where (λ (j : Job). j.media_id == id) w.db.jobs) refl

pub delete_media-db :
    (id : Text) (db : Db)
    → (delete_media id db).1 ≡ record db {
      media = delete_where (λ (r : Medium). r.id == id) db.media;
      variants = delete_where (λ (v : Variant). v.media_id == id) db.variants;
      jobs = delete_where (λ (j : Job). j.media_id == id) db.jobs;
    }
unfolding delete_media delete_row delete_jobs_by_media delete_variants_by_media
delete_media-db id db =
    rw
      (
        any-delete_where (λ (j : Job). j.media_id == id) db.jobs,
        delete_where_again (λ (v : Variant). v.media_id == id) db.variants,
      )
      refl
