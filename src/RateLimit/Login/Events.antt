-- ===== src/RateLimit/Login/Events.antt =====
-- Histories of a limiter: the calls of its methods in the order in which they take the lock.
use sharm.Common.{
  ℕ, ◌+◌, ◌≤◌, ◌≡◌, refl, ◌≢◌, Bool, true, false, ◌&&◌, List, [], ◌∷◌, Text, ◌==◌, text_eq,
}
use sharm.RateLimit.Login.{LoginRateLimiter, check, reset, cleanup}

pub data Event : Type 0 where
  attempt : Text → ℕ → Event
  success : Text → Event
  tick : ℕ → Event

unfoldable pub step : LoginRateLimiter → Event → LoginRateLimiter
step l (attempt client now) = (check l client now).0
step l (success client) = reset l client
step l (tick now) = cleanup l now

abbrev pub one_if : Bool → ℕ
one_if true = 1
one_if false = 0

-- How many attempts of client `c` an event lets through.
unfoldable pub grants : Text → LoginRateLimiter → Event → ℕ
grants c l (attempt client now) = one_if (client == c && (check l client now).1)
grants c l (success client) = 0
grants c l (tick now) = 0

unfoldable pub granted : Text → LoginRateLimiter → List Event → ℕ
granted c l [] = 0
granted c l (e ∷ es) = grants c l e + granted c (step l e) es

-- The event happens between two moments, and is no successful login of client `c`.
abbrev pub IsWithin : Text → ℕ → ℕ → Event → Type 0
IsWithin c from to (attempt client now) = (from ≤ now) × (now ≤ to)
IsWithin c from to (success client) = client ≢ c
IsWithin c from to (tick now) = (from ≤ now) × (now ≤ to)

-- The limits of a limiter never change.
pub step-limits :
    (l : LoginRateLimiter) (e : Event)
    → ((step l e).max_attempts ≡ l.max_attempts)
      × ((step l e).window_duration ≡ l.window_duration)
      × ((step l e).block_duration ≡ l.block_duration)
unfolding step check reset cleanup
step-limits l (attempt client now) = (refl, refl, refl)
step-limits l (success client) = (refl, refl, refl)
step-limits l (tick now) = (refl, refl, refl)
