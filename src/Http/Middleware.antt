-- ===== src/Http/Middleware.antt =====
-- internal/adapter/http/middleware, and the chain of Server.ServeHTTP: the headers of every answer,
-- and the tokens against forged requests.
pub mod Genuine
pub mod Protection
mod Tests
use sharm.Common.{
  ℕ, zero, suc, ◌-◌, ◌≡◌, Bool, true, false, ◌||◌, ◌&&◌, not, Option, none, some, List, [], ◌∷◌,
  ◌++◌, Text, text, ◌==◌, text_eq, nat_eq, if◌then◌else◌, length, take, drop,
}
use sharm.Golang.Strings.{join}
use sharm.Http.Exchange.{
  Request, Cookie, Write, set_header, set_cookie, http_error, Exchange, Handler, writes,
}

-- HMAC-SHA256, and base64 in the alphabet for URLs.
pub record Csrf : Type 0 where
  pub mac : Text → Text → Text
  pub encode : Text → Text
  pub decode : Text → Option Text

abbrev pub csrf_cookie_name : Text
csrf_cookie_name = text "csrf_token"

abbrev csrf_form_field : Text
csrf_form_field = text "csrf_token"

abbrev pub csrf_header_name : Text
csrf_header_name = text "X-CSRF-Token"

abbrev pub token_size : ℕ
token_size = 32

abbrev csrf_max_age : ℕ
csrf_max_age = 86400

-- The bytes from `i` on that stand in for random ones, `n` of them.
unfoldable pub counted_bytes : ℕ → ℕ → Text
counted_bytes i zero = []
counted_bytes i (suc n) = i ∷ counted_bytes (suc i) n

-- rand.Read of 32 bytes: none where it fails.
unfoldable pub random_bytes : Option Text → Text
unfolding counted_bytes
random_bytes none = counted_bytes 0 token_size
random_bytes (some bytes) = bytes

unfoldable pub is_safe_method : Text → Bool
is_safe_method method = method == text "GET" || method == text "HEAD" || method == text "OPTIONS"

unfoldable pub is_tls : Request → Bool
is_tls r = r.tls || r.header (text "X-Forwarded-Proto") == text "https"

-- validateRequest, the token of the request.
unfoldable pub request_token : Request → Text
request_token r =
    let token = r.header csrf_header_name in
    if token == [] then r.form_value csrf_form_field else token

module _ (csrf : Csrf) (secret_key : Text) where
  open csrf use {mac, encode, decode}

  -- GenerateToken
  unfoldable pub generate_csrf_token : Option Text → Text
  unfolding random_bytes
  generate_csrf_token random =
      let bytes = random_bytes random in encode (bytes ++ mac secret_key bytes)

  -- ValidateToken, on what is decoded.
  unfoldable pub validate_decoded : Option Text → Bool
  validate_decoded none = false
  validate_decoded (some decoded) =
      length decoded == 64 && drop token_size decoded == mac secret_key (take token_size decoded)

  unfoldable pub validate_csrf_token : Text → Bool
  unfolding validate_decoded
  validate_csrf_token token = validate_decoded (decode token)

  -- validateRequest
  unfoldable pub validate_against : Request → Option Text → Bool
  unfolding validate_csrf_token request_token
  validate_against r none = false
  validate_against r (some cookie_token) =
      let token = request_token r in
      not (token == []) && token == cookie_token && validate_csrf_token token

  unfoldable pub validate_request : Request → Bool
  unfolding validate_against
  validate_request r = validate_against r (r.cookie csrf_cookie_name)

  -- setCSRFCookie, where the request has no cookie yet.
  unfoldable pub new_cookie : Option Text → Request → Option Text → List Write
  unfolding generate_csrf_token is_tls
  new_cookie random r (some token) = []
  new_cookie random r none =
      set_cookie (record {
        name = csrf_cookie_name;
        value = generate_csrf_token random;
        max_age = some csrf_max_age;
        secure = is_tls r;
        http_only = false;
      })
      ∷ []

  -- CSRFProtection.Middleware
  unfoldable pub csrf_middleware : Option Text → Handler → Handler
  unfolding new_cookie is_safe_method validate_request
  csrf_middleware random next r x =
      let x' = writes (new_cookie random r (r.cookie csrf_cookie_name)) x in
      if is_safe_method r.method
      then next r x'
      else if not (validate_request r)
      then writes (http_error (text "Forbidden - Invalid CSRF token") 403 ∷ []) x'
      else next r x'

-- buildCSP
unfoldable pub build_csp : Text
unfolding join
build_csp =
    join
      (text "default-src 'self'"
        ∷ text "script-src 'self' 'unsafe-inline' https://cdn.jsdelivr.net"
        ∷ text "style-src 'self' 'unsafe-inline' https://fonts.googleapis.com"
        ∷ text "font-src 'self' https://fonts.gstatic.com"
        ∷ text "img-src 'self' data: blob:"
        ∷ text "media-src 'self' blob:"
        ∷ text "connect-src 'self'"
        ∷ text "frame-ancestors 'none'"
        ∷ [])
      (text "; ")

-- SecurityHeaders: what it writes before the next handler is called.
unfoldable pub strict_transport : Bool → List Write
strict_transport false = []
strict_transport true =
    set_header (text "Strict-Transport-Security") (text "max-age=31536000; includeSubDomains") ∷ []

unfoldable pub security_writes : Request → List Write
unfolding build_csp is_tls strict_transport
security_writes r =
    set_header (text "X-Content-Type-Options") (text "nosniff")
    ∷ set_header (text "X-Frame-Options") (text "DENY")
    ∷ set_header (text "Referrer-Policy") (text "strict-origin-when-cross-origin")
    ∷ set_header (text "Permissions-Policy") (text "camera=(), microphone=(), geolocation=()")
    ∷ set_header (text "Content-Security-Policy") build_csp
    ∷ strict_transport (is_tls r)

unfoldable pub security_headers : Handler → Handler
unfolding security_writes
security_headers next r x = next r (writes (security_writes r) x)

-- Server.ServeHTTP, for a table of routes.
unfoldable pub serve_http : Csrf → Text → Option Text → Handler → Handler
unfolding security_headers csrf_middleware
serve_http csrf secret_key random mux =
    security_headers (csrf_middleware csrf secret_key random mux)
