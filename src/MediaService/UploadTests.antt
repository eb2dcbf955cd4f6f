-- ===== src/MediaService/UploadTests.antt =====
-- Uploads into a database that has one media, and examples for the properties.
use sharm.Common.{◌≡◌, ◌≢◌, inl, List, refl, true, some, pos, [], ◌∷◌, text, text_beq, text_eq}
use sharm.Golang.FilePath.{join, base}
use sharm.Domain.Errors
use sharm.Domain.{Media, MediaType, Codec, av1}
use sharm.Domain.Errors.{wrapped, constraint}
use sharm.Domain.Probe.{dimensions}
use sharm.Auth.Toy
use sharm.Store.{Db, empty_db}
use sharm.Store.Media.{save, medium_of}
use sharm.Store.Jobs.{has_media}
use sharm.World.{World, ok, err, monad}
use sharm.Converter.{probe, validate_path}
use sharm.MediaService.Upload.{
  Uploads, or_else, new_media, with_h264, prepare, move_file, generate_id, with_probe, start_media,
  upload,
}
use sharm.MediaService.AllOrNothing.{upload-error}
use sharm.MediaService.Queued.{HasQueued, IsCompleted, start_media-HasQueued}

abbrev clip : Media
clip = new_media (text "m") MediaType.video (text "a.mov") (text "/u/m_a.mov") (pos 7) 0 100

abbrev taken : World
taken = record Toy.world { db = (save clip empty_db).1 }

-- ffprobe tells nothing of any file; the random name is one that is taken.
abbrev uploads : Uploads
uploads = record {
  upload_dir = text "/u";
  probe_of = λ path. Errors.ok (record {
    raw_json = [];
    format = record {
      format_name = [];
      format_long = [];
      duration = [];
      size = [];
      bit_rate = [];
      nb_streams = 0;
      tags = [];
    };
    streams = [];
  });
  random_id = some (text "m");
  add_days = λ now days. now;
  size = 10;
}

abbrev twice : World → World
twice w = (upload uploads (text "a.mov") (text "/tmp/f") (pos 7) MediaType.video [] (pos 0) w).1

-- The media cannot be saved: the file that is removed is not the one that was uploaded.
refused :
    (upload uploads (text "a.mov") (text "/tmp/f") (pos 7) MediaType.video [] (pos 0) taken).0
    ≡ err (wrapped (text "failed to save media metadata") constraint)
unfolding upload prepare or_else move_file generate_id with_probe monad probe validate_path save
    medium_of new_media text_beq dimensions join base
refused = refl

wrong_file : (twice taken).removed ≡ text "/u/a.mov" ∷ []
unfolding upload prepare or_else move_file generate_id with_probe monad probe validate_path save
    medium_of new_media text_beq dimensions join base
wrong_file = refl

upload-error_example : (twice taken).db ≡ taken.db
upload-error_example =
    upload-error uploads (text "a.mov") (text "/tmp/f") (pos 7) MediaType.video [] (pos 0) taken
      (wrapped (text "failed to save media metadata") constraint) refused

known : has_media clip.id taken.db.media ≡ true
unfolding save medium_of text_beq new_media
known = refl

both : with_h264 clip.type (av1 ∷ []) ≢ []
unfolding with_h264 text_beq new_media
both h = absurd (cc h)

clip_video : clip.type ≡ MediaType.video
unfolding new_media
clip_video = refl

clip_not_image : clip.type ≢ MediaType.image
unfolding new_media
clip_not_image e = cc (e)

start_media-HasQueued_example :
    (cs : List Codec) × IsCompleted (av1 ∷ []) clip.type cs
    × ((db : Db) × (start_media 10 clip (pos 0) (av1 ∷ []) (record taken { outcomes = [] })
          ≡ (ok clip, record taken { outcomes = []; db = db }))
        × HasQueued clip.id (pos 0) cs taken.db db)
start_media-HasQueued_example =
    start_media-HasQueued 10 (pos 0) clip (av1 ∷ []) taken known clip_not_image (inl clip_video)
