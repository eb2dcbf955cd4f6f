-- ===== src/Http/Auth/Tests.antt =====
-- Requests to the handlers of accounts, and examples for the properties.
use sharm.Common.{
  ◌≡◌, ◌⊎◌, refl, true, false, none, some, [], ◌∷◌, ◌++◌, Text, text, ◌==◌, text_eq, text_beq,
  if◌then◌else◌,
}
use sharm.Domain.{User}
use sharm.Golang.Decimal.{parse_int}
use sharm.Golang.Split.{split}
use sharm.Store.{select_one}
use sharm.Store.Users.{has_user, get_user, get_user_by_id}
use sharm.World.{monad, next_outcome}
use sharm.Auth.{
  validate_token, with_parts, validate_parts, check_time, expiration_time, get_user_by_signed_id,
  generate_token,
}
use sharm.Auth.Accounts.{validate_password}
use sharm.Auth.Token.{token_of}
use sharm.Auth.Toy.{toy, ascii, key, world}
use sharm.RateLimit.Login.{new_login_rate_limiter, check, reset}
use sharm.RateLimit.Tracker.{new_login_attempt_tracker, record_failure, get_failed_attempts}
use sharm.Http.Exchange.{Request, Write, Exchange, Handler, redirect, http_error, writes, calling}
use sharm.Http.Auth.{
  Settings, get_client_id, auth_middleware, login_handler, setup_handler, with_account, with_cookie,
  with_user, admit, log_in, welcome, set_auth_cookie, go_home, render_form_error,
}
use sharm.Http.Auth.Middleware.{IsRefused, IsAdmitted, auth_middleware-cases}
use sharm.Http.Auth.Login.{gives_cookie}
use sharm.Http.Auth.Setup.{setup_handler-has_user}

abbrev settings : Settings
settings = record {
  crypto = toy;
  unicode = ascii;
  secret_key = key;
  version = text "1.0";
  behind_proxy = false;
  format_seconds = λ d. [];
  backoff = λ n. n;
}

-- A form with a name and a password.
abbrev form : Text → Text → Request
form username password = record {
  method = text "POST";
  path = text "/login";
  header = λ name. [];
  form_value = λ name.
      if name == text "username"
      then username
      else if name == text "password"
      then password
      else [];
  cookie = λ name. none;
  remote_addr = text "10.0.0.1";
  tls = true;
}

abbrev start : Exchange
start = record {
  world = world;
  limiter = new_login_rate_limiter 5 900000000000 1800000000000;
  tracker = new_login_attempt_tracker;
  chunks = λ id i. none;
  written = [];
}

-- The right password gives a cookie, a wrong one does not and is counted.
logs_in : gives_cookie (login_handler settings (form (text "alice") (text "old")) start) ≡ true
unfolding gives_cookie login_handler text_beq new_login_rate_limiter check get_client_id admit
    calling validate_password monad get_user select_one log_in generate_token welcome
    set_auth_cookie go_home writes reset
logs_in = refl

stays_out :
    let y = login_handler settings (form (text "alice") (text "wrong")) start in
    (gives_cookie y ≡ false) × (get_failed_attempts y.tracker (text "10.0.0.1") ≡ 1)
unfolding gives_cookie login_handler text_beq new_login_rate_limiter new_login_attempt_tracker check
    get_client_id admit calling validate_password monad get_user select_one log_in writes
    render_form_error record_failure get_failed_attempts
stays_out = (refl, refl)

-- The request of a client that has logged in.
abbrev page_request : Request
page_request = record (form [] []) {
  method = text "GET";
  cookie = λ name. some (token_of toy key (text "100") (text "1"));
}

abbrev greet : User → Handler
greet user r = writes (redirect user.username 299 ∷ [])

let_in :
    (auth_middleware settings greet page_request start).written ≡ redirect (text "alice") 299 ∷ []
unfolding auth_middleware calling with_account with_cookie with_user writes monad has_user
    validate_token with_parts split validate_parts parse_int get_user_by_signed_id get_user_by_id
    select_one text_beq check_time expiration_time
let_in = refl

auth_middleware-cases_example :
    IsAdmitted settings page_request start
    ⊎ IsRefused (λ next. auth_middleware settings next page_request start)
auth_middleware-cases_example = auth_middleware-cases settings page_request start

registered : has_user world.db ≡ true
unfolding has_user
registered = refl

setup_handler-has_user_example :
    let y = setup_handler settings (form (text "mallory") (text "Abcdef1!")) start in
    (y.world.db ≡ world.db)
    × (y.written
        ≡ []
          ++ ((elim (next_outcome world.outcomes) as (λ o. Write) [
            | none ↦ redirect (text "/login") 303
            | some e ↦ http_error (text "Internal server error") 500
          ])
              ∷ []))
setup_handler-has_user_example =
    setup_handler-has_user settings (form (text "mallory") (text "Abcdef1!")) start registered
