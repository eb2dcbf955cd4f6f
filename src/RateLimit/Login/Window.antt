-- ===== src/RateLimit/Login/Window.antt =====
-- login.go: attempts that are let through in a stretch of time.
use sharm.Common.{
  ℕ, ◌+◌, ◌-◌, ◌≤◌, ◌≡◌, ◌⊎◌, some, List, [], ◌∷◌, Text, ◌==◌, text_eq, text_beq_iff, All, arith,
  if◌then◌else◌, Bool-cases, ltb, inl, inr,
}
use sharm.RateLimit.Login.{
  AttemptRecord, LoginRateLimiter, record_or_new, check_record, check, reset, cleanup,
}
use sharm.RateLimit.Login.Events.{
  Event, attempt, success, tick, step, grants, granted, IsWithin, step-limits,
}

-- The record of client `c` after an event, if the client has one.
after : Text → LoginRateLimiter → Event → AttemptRecord → AttemptRecord
after c l (attempt client now) r =
    if client == c
    then (check_record l.max_attempts l.window_duration l.block_duration r now).0
    else r
after c l (success client) r = r
after c l (tick now) r = r

module _ (c : Text) (from to : ℕ) where
  -- A record that was counted inside the stretch stays, and each attempt that is let through uses
  -- up one of those left.
  counted-step :
      (l : LoginRateLimiter) (e : Event) (r : AttemptRecord)
      → to ≤ from + l.window_duration
      → l.attempts c ≡ some r
      → from ≤ r.last_attempt
      → IsWithin c from to e
      → ((step l e).attempts c ≡ some (after c l e r))
        × (from ≤ (after c l e r).last_attempt)
        × (grants c l e + (l.max_attempts - (after c l e r).count) ≤ l.max_attempts - r.count)
  unfolding step check reset cleanup grants after
  counted-step l (attempt client now) r s h k w =
      ground (arith, text_beq_iff client c, text_beq_iff c client)
  counted-step l (success client) r s h k w = ground (arith, text_beq_iff c client)
  counted-step l (tick now) r s h k w = ground arith

  counted-granted :
      (l : LoginRateLimiter) (es : List Event) (r : AttemptRecord)
      → to ≤ from + l.window_duration
      → l.attempts c ≡ some r
      → from ≤ r.last_attempt
      → All (IsWithin c from to) es
      → granted c l es ≤ l.max_attempts - r.count
  unfolding granted
  counted-granted l [] r s h k w = omega arith
  counted-granted l (e ∷ es) r s h k w =
      let (h', k', budget) = counted-step l e r s h k w.0 in
      let limits = step-limits l e in
      let ih = counted-granted (step l e) es (after c l e r) (omega (arith, limits)) h' k' w.1 in
      omega (arith, ih, budget, limits)

  -- The first event of the stretch that touches the client's record.
  opening-step :
      (l : LoginRateLimiter) (e : Event)
      → IsWithin c from to e
      → (grants c l e ≡ 0)
        ⊎ ((r : AttemptRecord) × ((step l e).attempts c ≡ some r)
            × (from ≤ r.last_attempt)
            × (grants c l e + (l.max_attempts - r.count) ≤ l.max_attempts))
  unfolding step check grants
  opening-step l (attempt client now) w = elim (Bool-cases (client == c)) [
    | inr other ↦ inl (ground arith)
    | inl mine ↦
        let r = record_or_new (l.attempts client) now in
        elim (Bool-cases (ltb now r.blocked_until)) [
          | inl blocked ↦ inl (ground arith)
          | inr free ↦ inr (
            (check_record l.max_attempts l.window_duration l.block_duration r now).0,
            ground (arith, text_beq_iff c client, text_beq_iff client c),
            ground arith,
            ground arith,
          )
        ]
  ]
  opening-step l (success client) w = inl (omega arith)
  opening-step l (tick now) w = inl (omega arith)

  -- Whatever happened before, and whatever other clients and the cleanup do meanwhile: a client
  -- that has no successful login between two moments at most one window apart is let through at
  -- most `max_attempts` times between them.
  pub granted-le-max_attempts :
      (l : LoginRateLimiter) (es : List Event)
      → to ≤ from + l.window_duration
      → All (IsWithin c from to) es
      → granted c l es ≤ l.max_attempts
  unfolding granted
  granted-le-max_attempts l [] s w = omega arith
  granted-le-max_attempts l (e ∷ es) s w = elim (opening-step l e w.0) [
    | inl quiet ↦
        let ih = granted-le-max_attempts (step l e) es (omega (arith, step-limits l e)) w.1 in
        omega (arith, ih, quiet, step-limits l e)
    | inr (r, h, k, budget) ↦
        let ih = counted-granted (step l e) es r (omega (arith, step-limits l e)) h k w.1 in
        omega (arith, ih, budget, step-limits l e)
  ]
