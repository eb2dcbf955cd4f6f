-- ===== src/MediaService/Tests.antt =====
-- The media service on a small database.
use sharm.Common.{
  ℕ, ◌/◌, ◌≤◌, ltb, ◌≡◌, ◌↔◌, [], ◌∷◌, arith, ◌++◌, refl, pos, text, text_beq, text_eq,
}
use sharm.Domain.{Media, MediaType, MediaStatus, Variant, VariantStatus, av1}
use sharm.Domain.Errors
use sharm.Store.{Db, Medium, empty_db, select_one, select, order_by}
use sharm.Store.Variants.{list_variants_by_media}
use sharm.Store.Media.{get, medium_to_media, Times, text_before}
use sharm.World.{World, ok}
use sharm.MediaService.{get_media, delete, cleanup}
use sharm.MediaService.Removal.{IsRid, IsStored, deleted_files, get_media_iff, delete-delete_media}
use sharm.MediaService.Cleanup.{IsCleaned, second, cleanup-list_expired}

abbrev clip : Medium
clip = record {
  id = text "m";
  type = MediaType.video;
  original_name = text "a.mov";
  original_path = text "/data/a.mov";
  converted_path = [];
  status = MediaStatus.done;
  codec = av1;
  error_message = [];
  retention_days = pos 7;
  file_size = 10;
  width = 0;
  height = 0;
  thumb_path = [];
  created_at = 0;
  expires_at = 700000000000;
  probe_json = [];
}

abbrev variant : Variant
variant = record {
  id = 1;
  media_id = text "m";
  codec = av1;
  path = text "/data/m_av1.webm";
  file_size = 10;
  width = 0;
  height = 0;
  status = VariantStatus.done;
  error_message = [];
  created_at = 5;
}

abbrev world : World
world = record {
  db = record empty_db { media = clip ∷ []; variants = variant ∷ [] };
  events = [];
  outcomes = [];
  commands = [];
  removed = [];
  now = 701000000000;
}

abbrev media : Media
media = medium_to_media clip (variant ∷ [])

media_stored : get (text "m") world.db ≡ Errors.ok media
unfolding get text_beq select_one list_variants_by_media order_by select
media_stored = refl

get_media_iff_example :
    ((get_media (text "m") (record world { now = 700000000000 })).0 ≡ ok media)
    ↔ (IsStored world.db (text "m") media × (700000000000 ≤ 700000000000))
unfolding medium_to_media
get_media_iff_example = get_media_iff (text "m") media (record world { now = 700000000000 }) refl

delete-delete_media_example :
    (db : Db) × IsRid (text "m") world.db db
    × (delete (text "m") world
        ≡ (ok tt, record world { db = db; removed = [] ++ deleted_files media }))
delete-delete_media_example = delete-delete_media (text "m") media world refl media_stored

-- A text of one byte for a second.
abbrev toy_times : Times
toy_times = record { stored = λ t. (t / second) ∷ []; datetime = λ t. (t / second) ∷ [] }

toy_order :
    (a b : ℕ)
    → text_before (toy_times.stored a) (toy_times.datetime b) ≡ ltb (a / second) (b / second)
unfolding text_before
toy_order a b = ground arith

cleanup-list_expired_example :
    ((cleanup toy_times world).0 ≡ ok tt) × IsCleaned world (cleanup toy_times world).1
cleanup-list_expired_example = cleanup-list_expired toy_times world refl toy_order
