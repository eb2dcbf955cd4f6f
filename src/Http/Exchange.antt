-- ===== src/Http/Exchange.antt =====
-- A request, the calls that a handler makes on its response writer, and what the handlers share.
-- What net/http makes of a request (its form, its cookies) is read here as fields.
use sharm.Common.{Map, ℕ, Bool, Option, List, [], ◌∷◌, ◌++◌, Text}
use sharm.Domain.{Media}
use sharm.Domain.Probe.{ProbeResult}
use sharm.Domain.Errors
use sharm.RateLimit.Login.{LoginRateLimiter}
use sharm.RateLimit.Tracker.{LoginAttemptTracker}
use sharm.World.{World, M, Outcome, ok, err, panic}

pub record Request : Type 0 where
  pub method : Text
  pub path : Text
  -- r.Header.Get and r.FormValue: the empty text where the name is missing.
  pub header : Text → Text
  pub form_value : Text → Text
  pub cookie : Text → Option Text
  pub remote_addr : Text
  -- r.TLS != nil
  pub tls : Bool

pub record Cookie : Type 0 where
  pub name : Text
  pub value : Text
  -- A negative age in the source deletes the cookie, which `none` stands for.
  pub max_age : Option ℕ
  pub secure : Bool
  pub http_only : Bool

-- A template and what it is rendered with.
pub data Page : Type 0 where
  login setup : Text → Page
  form_error error_inline : Text → Page
  change_password_success : Page
  error_page : Text → Text → Text → Page
  share : Media → Text → Page
  status_polling status_failed : Text → Page
  status_done : Media → Text → Page
  status_page : Text → Text → Page
  media_info_dialog : Media → Option ProbeResult → Page
  upload_page : Text → Page
  dashboard : List Media → Text → Text → Page
  probe_result : ProbeResult → Text → Page
  dashboard_row_content : Media → Text → Page

-- A call on the response writer.
pub data Write : Type 0 where
  set_header : Text → Text → Write
  set_cookie : Cookie → Write
  write_header : ℕ → Write
  render : Page → Write
  http_error : Text → ℕ → Write
  redirect : Text → ℕ → Write
  serve_file : Text → Write
  print : Text → Write
  -- The handler panics, and net/http ends the connection.
  aborted : Write

-- What the handlers act on, and what they have written so far.
pub record Exchange : Type 0 where
  pub world : World
  pub limiter : LoginRateLimiter
  pub tracker : LoginAttemptTracker
  -- The files of the chunks of each upload, by number.
  pub chunks : Text → Map ℕ Text
  pub written : List Write

-- http.HandlerFunc
abbrev pub Handler : Type 0
Handler = Request → Exchange → Exchange

unfoldable pub writes : List Write → Exchange → Exchange
writes ws x = record x { written = x.written ++ ws }

abbrev pub after :
    {A : Type 0} → Exchange → Outcome A × World → (Errors.Result A → Exchange → Exchange) → Exchange
after x (ok a, w) k = k (Errors.ok a) (record x { world = w })
after x (err e, w) k = k (Errors.err e) (record x { world = w })
after x (panic, w) k = record x { world = w; written = x.written ++ (aborted ∷ []) }

-- A call of a service, and what the handler makes of its result.
unfoldable pub calling :
    {A : Type 0} → M A → (Errors.Result A → Exchange → Exchange) → Exchange → Exchange
calling m k x = after x (m x.world) k
