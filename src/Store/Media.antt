-- ===== src/Store/Media.antt =====
-- store.go over queries/media.sql: the media table.
use sharm.Common.{
  ℕ, Bool, true, false, ◌&&◌, ◌||◌, nat_eq, none, some, List, [], ◌∷◌, ◌++◌, map, Text, ◌==◌,
  text_eq, any, if◌then◌else◌, ltb,
}
use sharm.Domain.{Media, MediaStatus, Variant, Job}
use sharm.Domain.Errors.{not_found, constraint, Result, ok, err}
use sharm.Store.{Db, Medium, select_one, select, update_where, delete_where, order_by}
use sharm.Store.Jobs.{has_media, delete_jobs_by_media}
use sharm.Store.Variants.{list_variants_by_media, delete_variants_by_media}

-- InsertMedia's parameters, from the fields of the media.
unfoldable pub medium_of : Media → Medium
medium_of m = record {
  id = m.id;
  type = m.type;
  original_name = m.original_name;
  original_path = m.original_path;
  converted_path = m.converted_path;
  status = m.status;
  codec = m.codec;
  error_message = m.error_message;
  retention_days = m.retention_days;
  file_size = m.file_size;
  width = m.width;
  height = m.height;
  thumb_path = m.thumb_path;
  created_at = m.created_at;
  expires_at = m.expires_at;
  probe_json = m.probe_json;
}

unfoldable pub medium_to_media : Medium → List Variant → Media
medium_to_media row variants = record {
  id = row.id;
  type = row.type;
  original_name = row.original_name;
  original_path = row.original_path;
  converted_path = row.converted_path;
  status = row.status;
  codec = row.codec;
  error_message = row.error_message;
  retention_days = row.retention_days;
  file_size = row.file_size;
  width = row.width;
  height = row.height;
  thumb_path = row.thumb_path;
  created_at = row.created_at;
  expires_at = row.expires_at;
  variants = variants;
  probe_json = row.probe_json;
}

-- Save: the primary key refuses a second row of one id.
unfoldable pub save : Media → Db → Result (Unit {0}) × Db
unfolding medium_of
save m db =
    if has_media m.id db.media
    then (err constraint, db)
    else (ok tt, record db { media = db.media ++ (medium_of m ∷ []) })

-- Get: the row, and its variants in the order of their creation.
unfoldable pub get : Text → Db → Result Media
unfolding medium_to_media
get id db = elim (select_one (λ (r : Medium). r.id == id) db.media) [
  | none ↦ err not_found
  | some row ↦ ok (medium_to_media row (list_variants_by_media id db))
]

unfoldable pub with_variants : Db → List Medium → List Media
unfolding medium_to_media
with_variants db = map (λ row. medium_to_media row (list_variants_by_media row.id db))

-- The text that the driver stores for a time, and that of datetime('now').
pub record Times : Type 0 where
  pub stored : ℕ → Text
  pub datetime : ℕ → Text

-- SQLite compares two texts by their bytes.
unfoldable pub text_before : Text → Text → Bool
text_before s [] = false
text_before [] (d ∷ t) = true
text_before (c ∷ s) (d ∷ t) = let rest = text_before s t in ltb c d || (c == d && rest)

-- expires_at < datetime('now')
unfoldable pub list_expired : Times → ℕ → Db → List Media
unfolding with_variants text_before
list_expired times now db =
    with_variants db (
      select (λ (r : Medium). text_before (times.stored r.expires_at) (times.datetime now))
        db.media)

-- ORDER BY created_at DESC
unfoldable pub list_all : Db → List Media
unfolding with_variants
list_all db = with_variants db (order_by (λ (r s : Medium). ltb s.created_at r.created_at) db.media)

unfoldable pub set_status : MediaStatus → Text → Medium → Medium
set_status status message row = record row { status = status; error_message = message }

unfoldable pub update_status : Text → MediaStatus → Text → Db → Db
unfolding set_status
update_status id status message db = record db {
  media = update_where (λ r. r.id == id) (set_status status message) db.media;
}

unfoldable pub set_done : Media → Medium → Medium
set_done m row = record row {
  status = MediaStatus.done;
  converted_path = m.converted_path;
  codec = m.codec;
  width = m.width;
  height = m.height;
  thumb_path = m.thumb_path;
  file_size = m.file_size;
}

unfoldable pub update_done : Media → Db → Db
unfolding set_done
update_done m db = record db { media = update_where (λ r. r.id == m.id) (set_done m) db.media }

unfoldable pub set_probe_json : Text → Medium → Medium
set_probe_json json row = record row { probe_json = json }

unfoldable pub update_probe_json : Text → Text → Db → Db
unfolding set_probe_json
update_probe_json id json db = record db {
  media = update_where (λ r. r.id == id) (set_probe_json json) db.media;
}

-- DeleteMedia: the foreign key of the jobs refuses it while one refers to the row; the variants go
-- with the row.
unfoldable pub delete_row : Text → Db → Result (Unit {0}) × Db
delete_row id db = if any (λ (j : Job). j.media_id == id) db.jobs then (err constraint, db) else (
  ok tt,
  record db {
    media = delete_where (λ (r : Medium). r.id == id) db.media;
    variants = delete_where (λ (v : Variant). v.media_id == id) db.variants;
  },
)

-- Delete: the jobs, then the variants, then the row. Here the three statements all succeed or are taken
-- as one; MediaService.store_delete has them one by one.
unfoldable pub delete_media : Text → Db → Result (Unit {0}) × Db
delete_media id db = delete_row id (delete_variants_by_media id (delete_jobs_by_media id db))
