-- ===== src/Http/Media/Tests.antt =====
-- A media with a variant, its files, and examples for the properties.
use sharm.Common.{
  ltb, nat_eq, has_prefix, ℕ, ◌≡◌, refl, true, none, some, List, [], ◌∷◌, ◌++◌, Text, text, ◌==◌,
  text_eq, text_beq, if◌then◌else◌, pos,
}
use sharm.Golang.Strings.{trim_prefix, cut, trim_space}
use sharm.Domain.{Media, MediaType, MediaStatus, Variant, VariantStatus, h264}
use sharm.Domain.Variants.{is_expired, variant_by_codec, best_variant, by_codec}
use sharm.Domain.Accept.{Floats, best_variant_for_accept}
use sharm.Domain.Negotiation.{IsDoneOf, best_variant_for_accept-IsDoneOf}
use sharm.Store.{empty_db, select_one, select, order_by}
use sharm.Store.Media.{get, save, medium_of, medium_to_media}
use sharm.Store.Variants.{list_variants_by_media}
use sharm.World.{monad}
use sharm.RateLimit.Login.{new_login_rate_limiter}
use sharm.RateLimit.Tracker.{new_login_attempt_tracker}
use sharm.MediaService.{get_media}
use sharm.Auth.Toy.{world}
use sharm.Http.Exchange.{Request, Write, serve_file, Exchange, calling, writes}
use sharm.Http.Media.{
  Serving, media_handler, serve_variant, found_variant, variant_of, send_file, media_by_parts,
  media_by_suffix,
}
use sharm.Http.Media.Routes.{SendsFilesOf, media_handler-SendsFilesOf}

-- A number as twice one more than it: -1, 0, 1/2 and 1 are 0, 2, 3 and 4.
abbrev toy_floats : Floats
toy_floats = record {
  Float = ℕ;
  one = 4;
  minus_one = 0;
  above = λ a b. ltb b a;
  same = λ a b. a == b;
  is_negative = λ a. ltb a 2;
  parse_float = λ s. if s == text "0.5" then some 3 else none;
}

abbrev serving : Serving
serving = record {
  domain = text "example.org";
  version = text "1.0";
  quote = λ s. b'"' ∷ (s ++ (b'"' ∷ []));
  floats = toy_floats;
  parse_probe = λ s. none;
}

abbrev pub clip : Media
clip = record {
  id = text "A";
  type = MediaType.video;
  original_name = text "clip.mov";
  original_path = text "/u/A_clip.mov";
  converted_path = [];
  status = MediaStatus.processing;
  codec = [];
  error_message = [];
  retention_days = pos 7;
  file_size = 0;
  width = 0;
  height = 0;
  thumb_path = [];
  created_at = 0;
  expires_at = 99999999999999999999;
  variants = [];
  probe_json = [];
}

abbrev ready : Variant
ready = record {
  id = 1;
  media_id = text "A";
  codec = h264;
  path = text "/c/A.mp4";
  file_size = 10;
  width = 2;
  height = 2;
  status = VariantStatus.done;
  error_message = [];
  created_at = 0;
}

abbrev shelf : Exchange
shelf = record {
  world = record world { db = record (save clip empty_db).1 { variants = ready ∷ [] } };
  limiter = new_login_rate_limiter 5 900000000000 1800000000000;
  tracker = new_login_attempt_tracker;
  chunks = λ id i. none;
  written = [];
}

abbrev visit : Request
visit = record {
  method = text "GET";
  path = text "/v/A/h264";
  header = λ name. [];
  form_value = λ name. [];
  cookie = λ name. none;
  remote_addr = text "10.0.0.1";
  tls = true;
}

abbrev files : List Write → List Text
files [] = []
files (serve_file path ∷ ws) = path ∷ files ws
files (w ∷ ws) = files ws

sent : files (media_handler serving visit shelf).written ≡ text "/c/A.mp4" ∷ []
unfolding media_handler trim_prefix cut media_by_parts media_by_suffix serve_variant calling
    get_media monad get save select_one medium_of medium_to_media list_variants_by_media select
    order_by is_expired found_variant variant_by_codec by_codec variant_of send_file writes text_beq
    has_prefix
sent = refl

media_handler-SendsFilesOf_example : SendsFilesOf shelf (media_handler serving visit shelf)
media_handler-SendsFilesOf_example = media_handler-SendsFilesOf serving visit shelf

best_variant_for_accept-IsDoneOf_example :
    let m = record clip { variants = ready ∷ [] } in
    ((v : Variant)
      → best_variant_for_accept toy_floats m (text "video/*") ≡ some v
      → IsDoneOf v m.variants)
    × (trim_space (text "video/*") ≡ []
        → best_variant_for_accept toy_floats m (text "video/*") ≡ best_variant m)
best_variant_for_accept-IsDoneOf_example =
    best_variant_for_accept-IsDoneOf toy_floats (record clip { variants = ready ∷ [] })
      (text "video/*")
