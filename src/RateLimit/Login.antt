-- ===== src/RateLimit/Login.antt =====
-- login.go: the limiter of login attempts. Times are nanoseconds since the zero `time.Time`, so a
-- record that was never blocked has `blocked_until = 0`. The lock makes each method one step.
pub mod Events
pub mod Window
pub mod Blocking
pub mod Cleanup
use sharm.Common.{
  ℕ, ◌+◌, ◌-◌, ◌*◌, Bool, true, false, ◌&&◌, Option, none, some, Text, Map, text_eq, update, delete,
  ltb, if◌then◌else◌,
}

pub record AttemptRecord : Type 0 where
  pub count : ℕ
  pub last_attempt : ℕ
  pub blocked_until : ℕ

pub record LoginRateLimiter : Type 0 where
  pub attempts : Map Text AttemptRecord
  pub max_attempts : ℕ
  pub window_duration : ℕ
  pub block_duration : ℕ

unfoldable pub new_login_rate_limiter : ℕ → ℕ → ℕ → LoginRateLimiter
new_login_rate_limiter max window block = record {
  attempts = λ client. none;
  max_attempts = max;
  window_duration = window;
  block_duration = block;
}

-- The record of a client, made on its first attempt.
unfoldable record_or_new : Option AttemptRecord → ℕ → AttemptRecord
record_or_new none now = record { count = 0; last_attempt = now; blocked_until = 0 }
record_or_new (some r) now = r

-- `Check` on the client's record: the record afterwards, whether the attempt is allowed, and how
-- long the client is blocked.
check_record : ℕ → ℕ → ℕ → AttemptRecord → ℕ → AttemptRecord × Bool × ℕ
check_record max window block r now =
    if ltb now r.blocked_until
    then (r, false, r.blocked_until - now)
    else (let count = (if ltb window (now - r.last_attempt) then 0 else r.count) + 1 in
        if ltb max count
        then (
          record { count = count; last_attempt = now; blocked_until = now + block },
          false,
          block,
        )
        else (
          record { count = count; last_attempt = now; blocked_until = r.blocked_until },
          true,
          0,
        ))

unfoldable pub check : LoginRateLimiter → Text → ℕ → LoginRateLimiter × Bool × ℕ
unfolding record_or_new check_record
check l client now =
    let (r, allowed, remaining) =
      check_record l.max_attempts l.window_duration l.block_duration
        (record_or_new (l.attempts client) now) now in
    (record l { attempts = update l.attempts client r }, allowed, remaining)

unfoldable pub reset : LoginRateLimiter → Text → LoginRateLimiter
reset l client = record l { attempts = delete l.attempts client }

-- One tick of the `cleanup` goroutine: the test on a record, and the sweep.
is_stale : ℕ → AttemptRecord → ℕ → Bool
is_stale window r now = ltb (window * 2) (now - r.last_attempt) && ltb r.blocked_until now

sweep : ℕ → ℕ → Option AttemptRecord → Option AttemptRecord
sweep window now none = none
sweep window now (some r) = if is_stale window r now then none else some r

unfoldable pub cleanup : LoginRateLimiter → ℕ → LoginRateLimiter
unfolding sweep is_stale
cleanup l now = record l { attempts = λ client. sweep l.window_duration now (l.attempts client) }
