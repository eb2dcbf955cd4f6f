-- ===== src/Http/Chunks/Tests.antt =====
-- An upload of two chunks, and an example for the property.
use sharm.Common.{pos, true, none, List, [], ◌∷◌, Text, text, ◌==◌, text_eq, nat_eq, if◌then◌else◌}
use sharm.Domain.Errors.{plain}
use sharm.World.{throw}
use sharm.RateLimit.Login.{new_login_rate_limiter}
use sharm.RateLimit.Tracker.{new_login_attempt_tracker}
use sharm.Auth.Toy.{world}
use sharm.Http.Exchange.{Request, Exchange}
use sharm.Http.Chunks.Complete.{Service}

abbrev request : Request
request = record {
  method = text "POST";
  path = text "/upload/complete";
  header = λ name. [];
  form_value = λ name.
      if name == text "uploadId"
      then text "a-1"
      else if name == text "totalChunks"
      then text "2"
      else if name == text "filename"
      then text "song.flac"
      else [];
  cookie = λ name. none;
  remote_addr = text "10.0.0.1";
  tls = true;
}

abbrev start : Exchange
start = record {
  world = world;
  limiter = new_login_rate_limiter 5 900000000000 1800000000000;
  tracker = new_login_attempt_tracker;
  chunks = λ id i. none;
  written = [];
}

abbrev full_disk : Service
full_disk = record {
  upload = λ name content days type codecs fps. throw (plain content);
  detect_content_type = λ buf. text "application/octet-stream";
  atoi_value = λ s. pos 0;
}

abbrev parts : List Text
parts = text "fLaC" ∷ text "data" ∷ []
