-- ===== src/Http/Middleware/Tests.antt =====
-- Tokens with a toy signature, and examples for the properties.
use sharm.Common.{
  ◌≡◌, ◌⊎◌, refl, true, none, some, [], ◌∷◌, Text, text, ◌==◌, text_eq, text_beq, if◌then◌else◌,
  length, drop,
}
use sharm.Http.Exchange.{Request, http_error, Exchange, Handler, writes, redirect}
use sharm.RateLimit.Login.{new_login_rate_limiter}
use sharm.RateLimit.Tracker.{new_login_attempt_tracker}
use sharm.Auth.Toy.{world, key}
use sharm.Http.Middleware.{
  Csrf, token_size, csrf_header_name, counted_bytes, random_bytes, validate_csrf_token,
  generate_csrf_token, validate_decoded, new_cookie, security_writes, serve_http, is_safe_method,
  validate_request, request_token, validate_against, security_headers, csrf_middleware,
}
use sharm.Http.Middleware.Protection.{
  validate_csrf_token-generate_csrf_token, serve_http-cases, opened,
}
use sharm.Http.Middleware.Genuine.{IsAdmitted}

-- A signature of 32 bytes.
abbrev toy_mac : Text → Text → Text
toy_mac secret bytes = counted_bytes 7 32

abbrev toy_csrf : Csrf
toy_csrf = record { mac = toy_mac; encode = λ s. b'=' ∷ s; decode = λ s. some (drop 1 s) }

toy_mac_size : (s : Text) → length (toy_mac key s) ≡ token_size
unfolding counted_bytes
toy_mac_size s = refl

fallback_size : length (random_bytes none) ≡ token_size
unfolding random_bytes counted_bytes
fallback_size = refl

validate_csrf_token-generate_csrf_token_example :
    validate_csrf_token toy_csrf key (generate_csrf_token toy_csrf key none) ≡ true
validate_csrf_token-generate_csrf_token_example =
    validate_csrf_token-generate_csrf_token toy_csrf key none (λ s. refl) toy_mac_size fallback_size

-- A login form that another site sends: the cookie comes with it, the header does not.
abbrev forged : Request
forged = record {
  method = text "POST";
  path = text "/login";
  header = λ name. [];
  form_value = λ name. [];
  cookie = λ name. some (generate_csrf_token toy_csrf key none);
  remote_addr = text "10.0.0.1";
  tls = true;
}

abbrev start : Exchange
start = record {
  world = world;
  limiter = new_login_rate_limiter 5 900000000000 1800000000000;
  tracker = new_login_attempt_tracker;
  chunks = λ id i. none;
  written = [];
}

abbrev reached : Handler
reached r = writes (redirect (text "/reached") 299 ∷ [])

forged_refused :
    serve_http toy_csrf key none reached forged start
    ≡ writes
        (http_error (text "Forbidden - Invalid CSRF token") 403 ∷ [])
        (writes (security_writes forged) start)
unfolding serve_http security_headers csrf_middleware is_safe_method validate_request
    validate_against request_token new_cookie text_beq writes
forged_refused = refl

abbrev own : Request
own = record forged {
  header = λ name. if name == csrf_header_name then generate_csrf_token toy_csrf key none else [];
}

own_reaches :
    serve_http toy_csrf key none reached own start
    ≡ writes (redirect (text "/reached") 299 ∷ []) (writes (security_writes own) start)
unfolding serve_http security_headers csrf_middleware is_safe_method validate_request
    validate_against request_token new_cookie text_beq writes generate_csrf_token random_bytes
    counted_bytes validate_csrf_token validate_decoded
own_reaches = refl

serve_http-cases_example :
    (IsAdmitted toy_csrf key own
      × (serve_http toy_csrf key none reached own start
          ≡ reached own (opened toy_csrf key none own start)))
    ⊎ ((¬ IsAdmitted toy_csrf key own)
        × (serve_http toy_csrf key none reached own start
            ≡ writes
                (http_error (text "Forbidden - Invalid CSRF token") 403 ∷ [])
                (opened toy_csrf key none own start)))
serve_http-cases_example = serve_http-cases toy_csrf key none reached own start
