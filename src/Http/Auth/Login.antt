-- ===== src/Http/Auth/Login.antt =====
-- LoginHandler: what a login does to the limiter and the counter, and when it gives out a cookie.
use sharm.Common.{Bool, true, false, Option, none, some, List, [], ◌∷◌, text_eq, any}
use sharm.World.{World}
use sharm.RateLimit.Login.{LoginRateLimiter}
use sharm.RateLimit.Login.Events.{Event, attempt, success, step}
use sharm.RateLimit.Tracker.{Login, failed, succeeded}
use sharm.Http.Exchange.{Request, Write, set_cookie, Exchange}
use sharm.Http.Auth.{get_client_id}

-- What a request that is let through to the limiter is to the counter of failures: its attempt is
-- only counted (it is throttled, or the check of the password panics), its password is refused, or
-- it is a login.
pub data Kind : Type 0 where
  counted rejected accepted : Kind

later_events : Request → Kind → List Event
later_events r counted = []
later_events r rejected = []
later_events r accepted = success (get_client_id r) ∷ []

-- The events of a request to the login handler; `none` is one that reaches neither.
unfoldable pub limiter_events : Request → Exchange → Option Kind → List Event
unfolding later_events
limiter_events r x none = []
limiter_events r x (some kind) = attempt (get_client_id r) x.world.now ∷ later_events r kind

unfoldable pub tracker_events : Request → Option Kind → List Login
tracker_events r none = []
tracker_events r (some counted) = []
tracker_events r (some rejected) = failed (get_client_id r) ∷ []
tracker_events r (some accepted) = succeeded (get_client_id r) ∷ []

unfoldable pub steps : LoginRateLimiter → List Event → LoginRateLimiter
steps l [] = l
steps l (e ∷ es) = steps (step l e) es

is_cookie : Write → Bool
is_cookie (set_cookie c) = true
is_cookie w = false

-- That the answer so far has a cookie.
unfoldable pub gives_cookie : Exchange → Bool
unfolding is_cookie
gives_cookie x = any is_cookie x.written
