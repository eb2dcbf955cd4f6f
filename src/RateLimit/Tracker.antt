-- ===== src/RateLimit/Tracker.antt =====
-- backoff.go: the count of failed logins in a row. The map has no lock in the source; each method
-- is one step here.
use sharm.Common.{
  ℕ, ◌+◌, ◌≡◌, refl, ap, ◌∙◌, Option, none, some, List, [], ◌∷◌, Text, ◌==◌, text_eq, text_beq_iff,
  Map, update, delete, if◌then◌else◌, Bool-cases, inl, inr,
}

pub record LoginAttemptTracker : Type 0 where
  pub attempts : Map Text ℕ

unfoldable pub new_login_attempt_tracker : LoginAttemptTracker
new_login_attempt_tracker = record { attempts = λ client. none }

-- A missing key reads as 0.
attempts_or_zero : Option ℕ → ℕ
attempts_or_zero none = 0
attempts_or_zero (some n) = n

unfoldable pub get_failed_attempts : LoginAttemptTracker → Text → ℕ
unfolding attempts_or_zero
get_failed_attempts t client = attempts_or_zero (t.attempts client)

unfoldable pub record_failure : LoginAttemptTracker → Text → LoginAttemptTracker
unfolding attempts_or_zero
record_failure t client = record t {
  attempts = update t.attempts client (attempts_or_zero (t.attempts client) + 1);
}

unfoldable pub record_success : LoginAttemptTracker → Text → LoginAttemptTracker
record_success t client = record t { attempts = delete t.attempts client }

-- What a history of logins does to the counter.
pub data Login : Type 0 where
  failed : Text → Login
  succeeded : Text → Login

unfoldable pub track : LoginAttemptTracker → List Login → LoginAttemptTracker
track t [] = t
track t (failed client ∷ es) = track (record_failure t client) es
track t (succeeded client ∷ es) = track (record_success t client) es

-- The failures of one client since its last success, after `n` earlier ones.
unfoldable pub streak : Text → ℕ → List Login → ℕ
streak c n [] = n
streak c n (failed client ∷ es) = streak c (if c == client then n + 1 else n) es
streak c n (succeeded client ∷ es) = streak c (if c == client then 0 else n) es

count-record_failure :
    (t : LoginAttemptTracker) (c client : Text)
    → get_failed_attempts (record_failure t client) c
      ≡ (if c == client then get_failed_attempts t c + 1 else get_failed_attempts t c)
unfolding get_failed_attempts record_failure
count-record_failure t c client = elim (Bool-cases (c == client)) [
  | inl mine ↦ rw (mine, (text_beq_iff c client).0 mine) refl
  | inr other ↦ rw (other) refl
]

count-record_success :
    (t : LoginAttemptTracker) (c client : Text)
    → get_failed_attempts (record_success t client) c
      ≡ (if c == client then 0 else get_failed_attempts t c)
unfolding get_failed_attempts record_success
count-record_success t c client = elim (Bool-cases (c == client)) [
  | inl mine ↦ rw (mine) refl
  | inr other ↦ rw (other) refl
]

-- The counter of a client is the number of its failures since its last success, whatever the other
-- clients do in between.
pub get_failed_attempts-track :
    (t : LoginAttemptTracker) (c : Text) (es : List Login)
    → get_failed_attempts (track t es) c ≡ streak c (get_failed_attempts t c) es
unfolding track streak
get_failed_attempts-track t c [] = refl
get_failed_attempts-track t c (failed client ∷ es) =
    get_failed_attempts-track (record_failure t client) c es
    ∙ ap (λ n. streak c n es) (count-record_failure t c client)
get_failed_attempts-track t c (succeeded client ∷ es) =
    get_failed_attempts-track (record_success t client) c es
    ∙ ap (λ n. streak c n es) (count-record_success t c client)
