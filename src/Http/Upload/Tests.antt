-- ===== src/Http/Upload/Tests.antt =====
-- An upload in one request, and an example for the property.
use sharm.Common.{
  ℕ, ◌≡◌, ◌⊎◌, refl, true, Option, none, some, pos, List, [], ◌∷◌, Text, text, text_beq, text_eq,
  take,
}
use sharm.Domain.Errors.{plain}
use sharm.World.{throw, monad}
use sharm.RateLimit.Login.{new_login_rate_limiter}
use sharm.RateLimit.Tracker.{new_login_attempt_tracker}
use sharm.Auth.Toy.{world}
use sharm.Http.Exchange.{Request, Write, write_header, Exchange, calling, writes}
use sharm.Http.Validation.FileType.{
  magic_bytes_buffer_size, classify, validate_magic_bytes, is_allowed, detect_custom_magic_bytes,
  detect_boxed,
}
use sharm.Http.Chunks.Complete.{Service}
use sharm.Http.Upload.{FormFile, upload_handler, with_form_file, checked}
use sharm.Http.Upload.Checked.{upload_handler-cases}

abbrev request : Request
request = record {
  method = text "POST";
  path = text "/upload";
  header = λ name. [];
  form_value = λ name. [];
  cookie = λ name. none;
  remote_addr = text "10.0.0.1";
  tls = true;
}

abbrev start : Exchange
start = record {
  world = world;
  limiter = new_login_rate_limiter 5 900000000000 1800000000000;
  tracker = new_login_attempt_tracker;
  chunks = λ id i. none;
  written = [];
}

abbrev full_disk : Service
full_disk = record {
  upload = λ name content days type codecs fps. throw (plain (text "no space left on device"));
  detect_content_type = λ buf. text "text/html; charset=utf-8";
  atoi_value = λ s. pos 0;
}

-- A page in the place of a picture.
abbrev page : Option FormFile
page = some (text "cat.png", text "<html>")

abbrev last_status : List Write → ℕ → ℕ
last_status [] n = n
last_status (write_header s ∷ ws) n = last_status ws s
last_status (w ∷ ws) n = last_status ws n

page_refused : last_status (upload_handler full_disk true page [] request start).written 200 ≡ 400
unfolding upload_handler with_form_file calling validate_magic_bytes monad classify is_allowed
    detect_custom_magic_bytes detect_boxed text_beq checked writes
page_refused = refl

upload_handler-cases_example :
    ((true ≡ true)
      × (name : Text) × (content : Text) × (page ≡ some (name, content))
      × ((classify full_disk.detect_content_type (take magic_bytes_buffer_size content)).1 ≡ true))
    ⊎ (upload_handler full_disk true page [] request start
        ≡ upload_handler
            (record full_disk { upload = λ n c d t k f. throw (plain c) })
            true
            page
            []
            request
            start)
upload_handler-cases_example =
    upload_handler-cases full_disk (λ n c d t k f. throw (plain c)) true page [] request start
