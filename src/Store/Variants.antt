-- ===== src/Store/Variants.antt =====
-- store.go over queries/variants.sql: the table of converted variants.
use sharm.Common.{
  ℕ, ◌+◌, ◌&&◌, Option, none, some, List, [], ◌∷◌, ◌++◌, Text, ◌==◌, text_eq, nat_eq, if◌then◌else◌,
  ltb,
}
use sharm.Domain.{Variant, VariantStatus, Codec}
use sharm.Domain.Errors.{not_found, constraint, Result, ok, err}
use sharm.Store.{Db, select_one, select, update_where, delete_where, order_by}
use sharm.Store.Jobs.{has_media}

abbrev new_variant : ℕ → ℕ → Text → Codec → Variant
new_variant id now media_id codec = record {
  id = id;
  media_id = media_id;
  codec = codec;
  path = [];
  file_size = 0;
  width = 0;
  height = 0;
  status = VariantStatus.pending;
  error_message = [];
  created_at = now;
}

-- SaveVariant: the result is the variant with the key and time that the database chose.
unfoldable pub save_variant : Text → Codec → ℕ → Db → Result Variant × Db
save_variant media_id codec now db =
    let v = new_variant db.next_variant now media_id codec in
    if has_media media_id db.media
    then (
      ok v,
      record db { variants = db.variants ++ (v ∷ []); next_variant = db.next_variant + 1 },
    )
    else (err constraint, db)

abbrev or_not_found : Option Variant → Result Variant
or_not_found none = err not_found
or_not_found (some v) = ok v

unfoldable pub get_variant : ℕ → Db → Result Variant
get_variant id db = or_not_found (select_one (λ (v : Variant). v.id == id) db.variants)

unfoldable pub get_variant_by_media_and_codec : Text → Codec → Db → Result Variant
get_variant_by_media_and_codec media_id codec db =
    or_not_found
      (select_one (λ (v : Variant). v.media_id == media_id && v.codec == codec) db.variants)

-- ORDER BY created_at ASC
unfoldable pub list_variants_by_media : Text → Db → List Variant
list_variants_by_media media_id db =
    order_by (λ (v w : Variant). ltb v.created_at w.created_at)
      (select (λ (v : Variant). v.media_id == media_id) db.variants)

unfoldable pub set_variant_status : VariantStatus → Text → Variant → Variant
set_variant_status status message v = record v { status = status; error_message = message }

unfoldable pub update_variant_status : ℕ → VariantStatus → Text → Db → Db
unfolding set_variant_status
update_variant_status id status message db = record db {
  variants = update_where (λ v. v.id == id) (set_variant_status status message) db.variants;
}

unfoldable pub set_variant_done : Variant → Variant → Variant
set_variant_done w v = record v {
  status = VariantStatus.done;
  path = w.path;
  file_size = w.file_size;
  width = w.width;
  height = w.height;
}

unfoldable pub update_variant_done : Variant → Db → Db
unfolding set_variant_done
update_variant_done w db = record db {
  variants = update_where (λ v. v.id == w.id) (set_variant_done w) db.variants;
}

unfoldable pub delete_variants_by_media : Text → Db → Db
delete_variants_by_media id db = record db {
  variants = delete_where (λ (v : Variant). v.media_id == id) db.variants;
}
