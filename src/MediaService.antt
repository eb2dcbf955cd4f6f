-- ===== src/MediaService.antt =====
-- internal/service/media.go: what becomes of a media after its upload.
pub mod Deletion
pub mod Removal
pub mod Cleanup
pub mod Upload
pub mod Queued
pub mod AllOrNothing
mod Tests
mod UploadTests
use sharm.Common.{ℕ, Bool, List, [], ◌∷◌, Text, text, ◌==◌, text_eq, if◌then◌else◌}
use sharm.Domain.{Media, Variant}
use sharm.Domain.Errors.{expired, ok}
use sharm.Domain.Variants.{is_expired}
use sharm.Store.Jobs.{delete_jobs_by_media}
use sharm.Store.Variants.{delete_variants_by_media}
use sharm.Store.Media.{delete_row, Times, list_expired, list_all}
use sharm.World.{
  M, pure, throw, ◌>>=◌, ◌>>◌, or_wrap, ignore, call, statement, write, remove_file, query, clock,
}
use sharm.Worker.{store_get}

-- The three statements of the store's Delete, each of which may fail.
unfoldable pub store_delete : Text → M (Unit {0})
store_delete id = do
  or_wrap (text "delete jobs") (call (write (λ _. delete_jobs_by_media id)))
  or_wrap (text "delete variants") (call (write (λ _. delete_variants_by_media id)))
  call (statement (λ _. delete_row id))

abbrev pub remove_unless_empty : Text → M (Unit {0})
remove_unless_empty path = if path == [] then pure tt else remove_file path

-- The loop over the variants' files.
unfoldable pub remove_variants : List Variant → M (Unit {0})
remove_variants [] = pure tt
remove_variants (v ∷ vs) = do remove_unless_empty v.path; remove_variants vs

-- Get
unfoldable pub get_media : Text → M Media
get_media id = do
  media ← store_get id
  now ← clock
  if is_expired media now then throw expired else pure media

-- ListAll
unfoldable pub list_media : M (List Media)
list_media = call (query (λ db. ok (list_all db)))

-- Delete
unfoldable pub delete : Text → M (Unit {0})
delete id = do
  media ← store_get id
  remove_variants media.variants
  remove_unless_empty media.original_path
  remove_unless_empty media.converted_path
  remove_unless_empty media.thumb_path
  store_delete id

-- The body of the loop of Cleanup; os.Remove of an empty path fails, which is ignored.
unfoldable pub remove_media : Media → M (Unit {0})
remove_media media = do
  remove_variants media.variants
  remove_file media.original_path
  remove_file media.converted_path
  remove_file media.thumb_path
  ignore (store_delete media.id)

unfoldable pub remove_all : List Media → M (Unit {0})
remove_all [] = pure tt
remove_all (m ∷ ms) = do remove_media m; remove_all ms

unfoldable pub cleanup : Times → M (Unit {0})
cleanup times = do
  media ← call (statement (λ now db. (ok (list_expired times now db), db)))
  remove_all media
