-- ===== src/RateLimit/Login/Blocking.antt =====
-- login.go: attempts of a client after one that was denied.
use sharm.Common.{
  ℕ, ◌+◌, ◌<◌, ◌≡◌, refl, some, false, List, [], ◌∷◌, Text, text_eq, text_beq_iff, All, arith,
}
use sharm.RateLimit.Login.{
  AttemptRecord, LoginRateLimiter, record_or_new, check_record, check, reset, cleanup,
}
use sharm.RateLimit.Login.Events.{Event, attempt, success, tick, step, grants, granted, IsWithin}

module _ (c : Text) (from to : ℕ) where
  blocked-step :
      (l : LoginRateLimiter) (e : Event) (r : AttemptRecord)
      → l.attempts c ≡ some r
      → to < r.blocked_until
      → IsWithin c from to e
      → ((step l e).attempts c ≡ some r) × (grants c l e ≡ 0)
  unfolding step check reset cleanup grants
  blocked-step l (attempt client now) r h k w =
      ground (arith, text_beq_iff client c, text_beq_iff c client)
  blocked-step l (success client) r h k w = ground (arith, text_beq_iff c client)
  blocked-step l (tick now) r h k w = ground arith

  blocked-granted :
      (l : LoginRateLimiter) (es : List Event) (r : AttemptRecord)
      → l.attempts c ≡ some r
      → to < r.blocked_until
      → All (IsWithin c from to) es
      → granted c l es ≡ 0
  unfolding granted
  blocked-granted l [] r h k w = refl
  blocked-granted l (e ∷ es) r h k w =
      let (h', none_granted) = blocked-step l e r h k w.0 in
      omega (arith, none_granted, blocked-granted (step l e) es r h' k w.1)

-- A denial leaves a record that is blocked until the announced moment.
check-blocked_until :
    (l : LoginRateLimiter) (c : Text) (now : ℕ)
    → (check l c now).1 ≡ false
    → (r : AttemptRecord) × ((check l c now).0.attempts c ≡ some r)
      × (r.blocked_until ≡ now + (check l c now).2)
unfolding check
check-blocked_until l c now denied = (
  (check_record l.max_attempts l.window_duration l.block_duration (record_or_new (l.attempts c) now)
      now).0,
  ground (arith, text_beq_iff c c),
  ground arith,
)

-- When `Check` denies an attempt and names a time to wait, no attempt of the client is let through
-- until that time is over, unless the client logs in successfully: neither the client's own
-- attempts, nor other clients, nor the cleanup lift the block.
pub check-granted :
    (l : LoginRateLimiter) (c : Text) (now to : ℕ) (es : List Event)
    → (check l c now).1 ≡ false
    → to < now + (check l c now).2
    → All (IsWithin c now to) es
    → granted c (check l c now).0 es ≡ 0
check-granted l c now to es denied h w =
    let (r, there, wait) = check-blocked_until l c now denied in
    blocked-granted c now to (check l c now).0 es r there (omega (arith, wait, h)) w
