-- ===== src/Http/Middleware/Protection.antt =====
-- csrf.go, security.go and server.go: which requests reach the routes, and after what.
use sharm.Common.{
  subst, ◌≡◌, ◌||◌, List, if◌then◌else◌, refl, ◌⊎◌, Bool, true, false, Option, none, some, [], ◌∷◌,
  ◌++◌, Text, text, ◌==◌, text_eq, nat_eq, length, inl, inr, Bool-cases,
}
use sharm.Golang.Strings.{join}
use sharm.Http.Exchange.{
  Request, Write, set_header, set_cookie, http_error, Exchange, Handler, writes,
}
use sharm.Http.Middleware.{
  build_csp, is_tls, strict_transport, security_writes, Csrf, csrf_cookie_name, token_size,
  random_bytes, is_safe_method, generate_csrf_token, validate_csrf_token, validate_request,
  new_cookie, csrf_middleware, security_headers, serve_http,
}
use sharm.Http.Middleware.Genuine.{
  IsAdmitted, validate_decoded-signed, validate_request-IsGenuine, IsGenuine-validate_request,
  safe_iff,
}

module _ (csrf : Csrf) (secret_key : Text) where
  open csrf use {mac, encode, decode}

  -- A token that GenerateToken makes is valid, whether or not random bytes could be read, if base64
  -- decodes what it encodes, 32 random bytes are read where reading succeeds, and the signature has
  -- 32 bytes.
  pub validate_csrf_token-generate_csrf_token :
      (random : Option Text)
      → ((s : Text) → decode (encode s) ≡ some s)
      → ((s : Text) → length (mac secret_key s) ≡ token_size)
      → length (random_bytes random) ≡ token_size
      → validate_csrf_token csrf secret_key (generate_csrf_token csrf secret_key random) ≡ true
  unfolding validate_csrf_token generate_csrf_token
  validate_csrf_token-generate_csrf_token random decodes signs reads =
      let bytes = random_bytes random in
      rw (decodes (bytes ++ mac secret_key bytes))
        (validate_decoded-signed csrf secret_key bytes reads (signs bytes))

-- The headers of every answer; the last one only where the request has come over TLS.
abbrev pub over_tls : Request → Bool
over_tls r = r.tls || r.header (text "X-Forwarded-Proto") == text "https"

abbrev pub headers : Bool → List Write
headers tls =
    set_header (text "X-Content-Type-Options") (text "nosniff")
    ∷ set_header (text "X-Frame-Options") (text "DENY")
    ∷ set_header (text "Referrer-Policy") (text "strict-origin-when-cross-origin")
    ∷ set_header (text "Permissions-Policy") (text "camera=(), microphone=(), geolocation=()")
    ∷ set_header (text "Content-Security-Policy") (
        text
          "default-src 'self'; script-src 'self' 'unsafe-inline' https://cdn.jsdelivr.net; style-src 'self' 'unsafe-inline' https://fonts.googleapis.com; font-src 'self' https://fonts.gstatic.com; img-src 'self' data: blob:; media-src 'self' blob:; connect-src 'self'; frame-ancestors 'none'")
    ∷ (if tls
        then set_header (text "Strict-Transport-Security")
            (text "max-age=31536000; includeSubDomains")
          ∷ []
        else [])

security_writes-headers : (r : Request) → security_writes r ≡ headers (over_tls r)
unfolding security_writes build_csp join is_tls strict_transport
security_writes-headers r = elim (Bool-cases (over_tls r)) [
  | inl tls ↦ rw tls refl
  | inr plain ↦ rw plain refl
]

-- The cookie of a request that has none yet, a day long: a script of the page reads it.
abbrev pub first_cookie : Text → Bool → Option Text → List Write
first_cookie token tls (some _) = []
first_cookie token tls none =
    set_cookie (record {
      name = text "csrf_token";
      value = token;
      max_age = some 86400;
      secure = tls;
      http_only = false;
    })
    ∷ []

module _ (csrf : Csrf) (secret_key : Text) (random : Option Text) where
  new_cookie-first_cookie :
      (r : Request) (cookie : Option Text)
      → new_cookie csrf secret_key random r cookie
        ≡ first_cookie (generate_csrf_token csrf secret_key random) (over_tls r) cookie
  unfolding new_cookie is_tls
  new_cookie-first_cookie r none = refl
  new_cookie-first_cookie r (some token) = refl

  -- The exchange when a route is reached.
  abbrev pub opened : Request → Exchange → Exchange
  opened r x = record x {
    written =
        x.written
        ++ headers (over_tls r)
        ++ first_cookie (generate_csrf_token csrf secret_key random) (over_tls r)
            (r.cookie (text "csrf_token"));
  }

  csrf_middleware-cases :
      (mux : Handler) (r : Request) (x : Exchange)
      → let x' = writes (new_cookie csrf secret_key random r (r.cookie csrf_cookie_name)) x in
        (IsAdmitted csrf secret_key r × (csrf_middleware csrf secret_key random mux r x ≡ mux r x'))
        ⊎ ((¬ IsAdmitted csrf secret_key r)
            × (csrf_middleware csrf secret_key random mux r x
                ≡ writes (http_error (text "Forbidden - Invalid CSRF token") 403 ∷ []) x'))
  unfolding csrf_middleware
  csrf_middleware-cases mux r x = elim (Bool-cases (is_safe_method r.method)) [
    | inl safe ↦ inl (inl ((safe_iff csrf secret_key r.method).0 safe), rw safe refl)
    | inr unsafe ↦ elim (Bool-cases (validate_request csrf secret_key r)) [
      | inl genuine ↦
          inl
            (inr (validate_request-IsGenuine csrf secret_key r genuine), rw (unsafe, genuine) refl)
      | inr forged ↦ inr (
        (λ a. elim a [
          | inl safe ↦ cc ((safe_iff csrf secret_key r.method).1 safe, unsafe)
          | inr genuine ↦ cc (IsGenuine-validate_request csrf secret_key r genuine, forged)
        ]),
        rw (unsafe, forged) refl,
      )
    ]
  ]

  -- A GET, HEAD or OPTIONS, and a request with a signed token that is in its cookie as well as in its
  -- header or form, is answered by the routes, after the security headers have been set, and a
  -- cookie with a new token if the request had none. Any other request is answered by 403 after
  -- the same headers and cookie, whatever the routes are.
  pub serve_http-cases :
      (mux : Handler) (r : Request) (x : Exchange)
      → (IsAdmitted csrf secret_key r
          × (serve_http csrf secret_key random mux r x ≡ mux r (opened r x)))
        ⊎ ((¬ IsAdmitted csrf secret_key r)
            × (serve_http csrf secret_key random mux r x
                ≡ writes
                    (http_error (text "Forbidden - Invalid CSRF token") 403 ∷ [])
                    (opened r x)))
  unfolding serve_http security_headers writes
  serve_http-cases mux r x =
      subst
        (λ x'.
          (IsAdmitted csrf secret_key r × (serve_http csrf secret_key random mux r x ≡ mux r x'))
          ⊎ ((¬ IsAdmitted csrf secret_key r)
              × (serve_http csrf secret_key random mux r x
                  ≡ writes (http_error (text "Forbidden - Invalid CSRF token") 403 ∷ []) x')))
        (rw (security_writes-headers r, new_cookie-first_cookie r (r.cookie csrf_cookie_name)) refl)
        (csrf_middleware-cases mux r (writes (security_writes r) x))
