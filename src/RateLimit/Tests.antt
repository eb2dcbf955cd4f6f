-- ===== src/RateLimit/Tests.antt =====
-- Runs of the login limiter and of the counter of failures, with their results.
use sharm.Common.{◌≡◌, ◌≤◌, refl, false, none, List, [], ◌∷◌, Text, text, text_beq, arith}
use sharm.RateLimit.Login.{LoginRateLimiter, new_login_rate_limiter, check, reset, cleanup}
use sharm.RateLimit.Login.Events.{Event, attempt, success, tick, step, grants, granted}
use sharm.RateLimit.Login.Window.{granted-le-max_attempts}
use sharm.RateLimit.Login.Blocking.{check-granted}
use sharm.RateLimit.Login.Cleanup.{replies, without_ticks, replies-without_ticks}
use sharm.RateLimit.Tracker.{
  new_login_attempt_tracker, Login, failed, succeeded, get_failed_attempts, track, streak,
  get_failed_attempts-track,
}

abbrev alice : Text
alice = text "203.0.113.7"

abbrev bob : Text
bob = text "198.51.100.9"

-- Two attempts in ten units of time, and a block of twenty.
abbrev limiter : LoginRateLimiter
limiter = record {
  attempts = λ client. none;
  max_attempts = 2;
  window_duration = 10;
  block_duration = 20;
}

abbrev burst : List Event
burst =
    attempt alice 100
    ∷ attempt bob 101
    ∷ attempt alice 102
    ∷ success bob
    ∷ attempt alice 103
    ∷ tick 105
    ∷ attempt alice 110
    ∷ []

limiter_new : new_login_rate_limiter 2 10 20 ≡ limiter
unfolding new_login_rate_limiter
limiter_new = refl

burst-granted : granted alice limiter burst ≡ 2
unfolding granted grants check step reset cleanup text_beq
burst-granted = refl

granted-le-max_attempts_example : granted alice limiter burst ≤ 2
granted-le-max_attempts_example =
    granted-le-max_attempts alice 100 110 limiter burst (omega arith) (ground arith)

-- The limiter after the first two attempts of the burst: the third is refused.
abbrev full : LoginRateLimiter
full = step (step limiter (attempt alice 100)) (attempt alice 102)

full_refuses : ((check full alice 103).1 ≡ false) × ((check full alice 103).2 ≡ 20)
unfolding check step text_beq
full_refuses = (refl, refl)

abbrev after_refusal : List Event
after_refusal = attempt alice 104 ∷ tick 110 ∷ attempt bob 111 ∷ attempt alice 122 ∷ []

check-granted_example : granted alice (check full alice 103).0 after_refusal ≡ 0
check-granted_example =
    check-granted full alice 103 122 after_refusal (full_refuses.0) (omega (arith, full_refuses.1))
      (ground arith)

abbrev long_history : List Event
long_history =
    attempt alice 100
    ∷ tick 101
    ∷ attempt alice 102
    ∷ attempt alice 103
    ∷ tick 200
    ∷ success bob
    ∷ attempt alice 201
    ∷ []

replies-without_ticks_example :
    replies limiter long_history ≡ replies limiter (without_ticks long_history)
replies-without_ticks_example = replies-without_ticks limiter 100 long_history (ground arith)

abbrev logins : List Login
logins = failed alice ∷ failed alice ∷ failed bob ∷ succeeded bob ∷ failed alice ∷ []

get_failed_attempts-track_example :
    get_failed_attempts (track new_login_attempt_tracker logins) alice
    ≡ streak alice (get_failed_attempts new_login_attempt_tracker alice) logins
get_failed_attempts-track_example = get_failed_attempts-track new_login_attempt_tracker alice logins
