-- ===== src/Http/Auth.antt =====
-- internal/adapter/http/auth.go: who is let in. The logs are left out.
pub mod Middleware
pub mod Login
pub mod Setup
mod Tests
use sharm.Common.{
  ℕ, ◌+◌, ◌*◌, ◌/◌, ◌≡◌, Bool, true, false, not, ◌||◌, Option, none, some, List, [], ◌∷◌, ◌++◌,
  Text, text, ◌==◌, text_eq, if◌then◌else◌, ltb,
}
use sharm.Golang.Decimal.{format_int}
use sharm.Domain.{User}
use sharm.Domain.Errors.{ok, err}
use sharm.Domain.Errors
use sharm.Store.Users.{has_user}
use sharm.World.{World, M, call, query}
use sharm.Auth.{Crypto, Unicode, generate_token, validate_token}
use sharm.Auth.Accounts.{register, validate_password, change_password}
use sharm.RateLimit.Login.{LoginRateLimiter, check, reset}
use sharm.RateLimit.Tracker.{record_failure, record_success, get_failed_attempts}
use sharm.Http.Exchange.{
  Request, Cookie, login, setup, form_error, change_password_success, Write, set_header, set_cookie,
  write_header, render, http_error, redirect, Exchange, Handler, writes, calling,
}

abbrev pub cookie_name : Text
cookie_name = text "auth_token"

-- 7 * 24 * 60 * 60
abbrev cookie_max_age : ℕ
cookie_max_age = 604800

abbrev html : Write
html = set_header (text "Content-Type") (text "text/html; charset=utf-8")

unfoldable pub get_client_id : Request → Text
get_client_id r =
    let forwarded = r.header (text "X-Forwarded-For") in
    if forwarded == [] then r.remote_addr else forwarded

-- formatDuration, of nanoseconds; the quotients that the code takes in floating point are exact for
-- the durations that the limiter gives.
unfoldable pub format_duration : ℕ → Text
format_duration d =
    if ltb d 60000000000
    then format_int (d / 1000000000) ++ text " seconds"
    else if ltb d 3600000000000
    then format_int (d / 60000000000) ++ text " minutes"
    else format_int (d / 3600000000000) ++ text " hours"

-- renderFormError
unfoldable pub render_form_error : Text → ℕ → Exchange → Exchange
render_form_error msg status = writes (html ∷ write_header status ∷ render (form_error msg) ∷ [])

-- The settings of a server, and what it takes from outside: the parameters of the services, the
-- verb %.0f of the seconds of a duration, and Backoff.Duration.
pub record Settings : Type 0 where
  pub crypto : Crypto
  pub unicode : Unicode
  pub secret_key : Text
  pub version : Text
  pub behind_proxy : Bool
  pub format_seconds : ℕ → Text
  pub backoff : ℕ → ℕ

abbrev pub has_user_call : M Bool
has_user_call = call (query (λ db. ok (has_user db)))

abbrev internal_error : Write
internal_error = http_error (text "Internal server error") 500

module _ (settings : Settings) where
  open settings use {crypto, unicode, secret_key, version, behind_proxy, format_seconds, backoff}

  -- renderLogin and renderSetup
  unfoldable render_login : Exchange → Exchange
  render_login = writes (html ∷ write_header 200 ∷ render (login version) ∷ [])

  unfoldable render_setup : Exchange → Exchange
  render_setup = writes (html ∷ write_header 200 ∷ render (setup version) ∷ [])

  -- setAuthCookie
  unfoldable pub set_auth_cookie : Request → Text → Exchange → Exchange
  set_auth_cookie r token = writes (
      set_cookie (record {
        name = cookie_name;
        value = token;
        max_age = some cookie_max_age;
        secure = r.tls || behind_proxy;
        http_only = true;
      })
      ∷ [])

  -- The end of a login and of a setup.
  unfoldable pub go_home : Request → Exchange → Exchange
  go_home r =
      if r.header (text "HX-Request") == text "true"
      then writes (set_header (text "HX-Redirect") (text "/") ∷ [])
      else writes (redirect (text "/") 303 ∷ [])

  -- AuthMiddleware, from its end to its beginning.
  unfoldable pub with_user : (User → Handler) → Request → Errors.Result User → Exchange → Exchange
  with_user next r (err e) = writes (redirect (text "/login") 303 ∷ [])
  with_user next r (ok user) = next user r

  unfoldable pub with_cookie : (User → Handler) → Request → Option Text → Exchange → Exchange
  with_cookie next r none = writes (redirect (text "/login") 303 ∷ [])
  with_cookie next r (some token) =
      calling (validate_token crypto secret_key token) (with_user next r)

  unfoldable pub with_account :
      (User → Handler) → Request → Errors.Result Bool → Exchange → Exchange
  with_account next r (err e) = writes (internal_error ∷ [])
  with_account next r (ok false) = writes (redirect (text "/setup") 303 ∷ [])
  with_account next r (ok true) = with_cookie next r (r.cookie cookie_name)

  unfoldable pub auth_middleware : (User → Handler) → Handler
  auth_middleware next r = calling has_user_call (with_account next r)

  -- LoginHandler, from its end to its beginning.
  unfoldable pub welcome : Request → Errors.Result Text → Exchange → Exchange
  unfolding set_auth_cookie go_home
  welcome r (err e) x = render_form_error (text "Internal error, please try again") 500 x
  welcome r (ok token) x = go_home r (set_auth_cookie r token x)

  unfoldable pub log_in : Request → Errors.Result (Unit {0}) → Exchange → Exchange
  log_in r (err e) x =
      let client = get_client_id r in
      let tracker = record_failure x.tracker client in
      let wait = backoff (get_failed_attempts tracker client) in
      render_form_error (text "Invalid username or password") 401
        (record x { tracker = tracker; world = record x.world { now = x.world.now + wait } })
  log_in r (ok done) x =
      let client = get_client_id r in
      calling (generate_token crypto secret_key (r.form_value (text "username"))) (welcome r)
        (record x { tracker = record_success x.tracker client; limiter = reset x.limiter client })

  unfoldable pub too_many_attempts : ℕ → Exchange → Exchange
  too_many_attempts wait x =
      render_form_error (text "Too many attempts. Try again in " ++ format_duration wait) 429
        (writes (set_header (text "Retry-After") (format_seconds wait) ∷ []) x)

  unfoldable pub admit : Request → LoginRateLimiter × Bool × ℕ → Exchange → Exchange
  admit r (limiter, false, wait) x = too_many_attempts wait (record x { limiter = limiter })
  admit r (limiter, true, wait) x =
      let username = r.form_value (text "username") in
      let password = r.form_value (text "password") in
      calling (validate_password unicode crypto username password) (log_in r)
        (record x { limiter = limiter })

  unfoldable pub login_handler : Handler
  unfolding render_login
  login_handler r x =
      if r.method == text "GET"
      then render_login x
      else if not (r.method == text "POST")
      then writes (http_error (text "Method not allowed") 405 ∷ []) x
      else if r.form_value (text "username") == [] || r.form_value (text "password") == []
      then render_form_error (text "Username and password are required") 400 x
      else admit r (check x.limiter (get_client_id r) x.world.now) x

  -- LogoutHandler
  unfoldable pub logout_handler : Handler
  logout_handler r = writes (
      set_cookie (record {
        name = cookie_name;
        value = [];
        max_age = none;
        secure = r.tls || behind_proxy;
        http_only = true;
      })
      ∷ redirect (text "/login") 303
      ∷ [])

  -- SetupHandler, from its end to its beginning.
  unfoldable pub set_up : Request → Errors.Result Text → Exchange → Exchange
  unfolding set_auth_cookie go_home
  set_up r (err e) x =
      render_form_error (text "Account created but login failed. Please log in manually.") 500 x
  set_up r (ok token) x = go_home r (set_auth_cookie r token x)

  unfoldable pub after_register : Request → Errors.Result (Unit {0}) → Exchange → Exchange
  after_register r (err e) = render_form_error (text "Failed to create user. Please try again.") 400
  after_register r (ok done) =
      calling (generate_token crypto secret_key (r.form_value (text "username"))) (set_up r)

  unfoldable pub without_account : Request → Errors.Result Bool → Exchange → Exchange
  unfolding render_setup
  without_account r (err e) = writes (internal_error ∷ [])
  without_account r (ok true) = writes (redirect (text "/login") 303 ∷ [])
  without_account r (ok false) =
      let username = r.form_value (text "username") in
      let password = r.form_value (text "password") in
      if r.method == text "GET"
      then render_setup
      else if not (r.method == text "POST")
      then writes (http_error (text "Method not allowed") 405 ∷ [])
      else if username == [] || password == []
      then render_form_error (text "Username and password are required") 400
      else if not (password == r.form_value (text "confirm_password"))
      then render_form_error (text "Passwords do not match") 400
      else calling (register unicode crypto username password) (after_register r)

  unfoldable pub setup_handler : Handler
  setup_handler r = calling has_user_call (without_account r)

  -- ChangePasswordHandler, for the user that AuthMiddleware puts into the context.
  unfoldable pub changed : Errors.Result (Unit {0}) → Exchange → Exchange
  changed (err e) =
      render_form_error
        (text "Failed to change password. Please verify your old password and try again.") 400
  changed (ok done) = writes (html ∷ render change_password_success ∷ [])

  unfoldable pub change_password_handler : User → Handler
  change_password_handler user r =
      let old = r.form_value (text "old_password") in
      let new = r.form_value (text "new_password") in
      if old == [] || new == []
      then render_form_error (text "All fields are required") 400
      else if not (new == r.form_value (text "confirm_password"))
      then render_form_error (text "New passwords do not match") 400
      else calling (change_password unicode crypto user.username old new) changed
