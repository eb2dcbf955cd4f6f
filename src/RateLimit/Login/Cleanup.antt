-- ===== src/RateLimit/Login/Cleanup.antt =====
-- login.go: histories with and without the cleanup of old records.
use sharm.Common.{
  ℕ, ◌+◌, ◌≤◌, ◌<◌, ◌≡◌, refl, ◌⊎◌, inl, inr, Option, some, none, Bool, List, [], ◌∷◌, Text, ◌==◌,
  text_eq, arith, Bool-cases,
}
use sharm.RateLimit.Login.{
  AttemptRecord, LoginRateLimiter, record_or_new, check_record, check, reset, is_stale, sweep,
  cleanup,
}
use sharm.RateLimit.Login.Events.{Event, attempt, success, tick}

-- The answers of `Check`, in order.
pub replies : LoginRateLimiter → List Event → List (Bool × ℕ)
replies l [] = []
replies l (attempt client now ∷ es) =
    ((check l client now).1, (check l client now).2) ∷ replies (check l client now).0 es
replies l (success client ∷ es) = replies (reset l client) es
replies l (tick now ∷ es) = replies (cleanup l now) es

abbrev pub without_ticks : List Event → List Event
without_ticks [] = []
without_ticks (attempt client now ∷ es) = attempt client now ∷ without_ticks es
without_ticks (success client ∷ es) = success client ∷ without_ticks es
without_ticks (tick now ∷ es) = without_ticks es

-- The clock does not run backwards.
abbrev pub IsChronological : ℕ → List Event → Type 0
IsChronological now [] = Unit
IsChronological now (attempt client t ∷ es) = (now ≤ t) × IsChronological t es
IsChronological now (success client ∷ es) = IsChronological now es
IsChronological now (tick t ∷ es) = (now ≤ t) × IsChronological t es

-- Records that answer alike from a moment on: the right one may be old where the left one is gone.
abbrev AlikeRecords : ℕ → ℕ → Option AttemptRecord → Option AttemptRecord → Type 0
AlikeRecords window now none none = Unit
AlikeRecords window now none (some s) = (s.last_attempt + window < now) × (s.blocked_until ≤ now)
AlikeRecords window now (some r) none = ⊥
AlikeRecords window now (some r) (some s) =
    (r.count ≡ s.count)
    × (r.last_attempt ≡ s.last_attempt)
    × ((r.blocked_until ≡ s.blocked_until) ⊎ ((r.blocked_until ≤ now) × (s.blocked_until ≤ now)))

module _ (max window block now t : ℕ) (later : now ≤ t) where
  AlikeRecords-check_record :
      (o p : Option AttemptRecord)
      → AlikeRecords window now o p
      → let x = check_record max window block (record_or_new o t) t in
        let y = check_record max window block (record_or_new p t) t in
        AlikeRecords window t (some x.0) (some y.0) × (x.1 ≡ y.1) × (x.2 ≡ y.2)
  unfolding check_record record_or_new
  AlikeRecords-check_record none none h = ground arith
  AlikeRecords-check_record none (some s) h = ground arith
  AlikeRecords-check_record (some r) none h = elim h [ ]
  AlikeRecords-check_record (some r) (some s) h = ground arith

  AlikeRecords-later :
      (o p : Option AttemptRecord) → AlikeRecords window now o p → AlikeRecords window t o p
  AlikeRecords-later none none h = tt
  AlikeRecords-later none (some s) h = omega arith
  AlikeRecords-later (some r) none h = elim h [ ]
  AlikeRecords-later (some r) (some s) h = ground arith

  AlikeRecords-sweep :
      (o p : Option AttemptRecord)
      → AlikeRecords window now o p
      → AlikeRecords window t (sweep window t o) p
  unfolding sweep is_stale
  AlikeRecords-sweep none none h = tt
  AlikeRecords-sweep none (some s) h = omega arith
  AlikeRecords-sweep (some r) none h = elim h [ ]
  AlikeRecords-sweep (some r) (some s) h = ground arith

-- Two limiters with the same limits whose records answer alike.
record Alike (now : ℕ) (l k : LoginRateLimiter) : Type 0 where
  same_max : l.max_attempts ≡ k.max_attempts
  same_window : l.window_duration ≡ k.window_duration
  same_block : l.block_duration ≡ k.block_duration
  alike : (c : Text) → AlikeRecords k.window_duration now (l.attempts c) (k.attempts c)

module _ (now t : ℕ) (later : now ≤ t) (l k : LoginRateLimiter) (a : Alike now l k) where
  Alike-check :
      (client : Text)
      → Alike t (check l client t).0 (check k client t).0
        × ((check l client t).1 ≡ (check k client t).1)
        × ((check l client t).2 ≡ (check k client t).2)
  unfolding check
  Alike-check client =
      let here =
        AlikeRecords-check_record k.max_attempts k.window_duration k.block_duration now t later
          (l.attempts client) (k.attempts client) (a.alike client) in
      (
        record {
          same_max = a.same_max;
          same_window = a.same_window;
          same_block = a.same_block;
          alike = λ c. elim (Bool-cases (c == client)) [
            | inl mine ↦ rw (mine, a.same_max, a.same_window, a.same_block) here.0
            | inr other ↦ rw other (
                AlikeRecords-later k.max_attempts k.window_duration k.block_duration now t later
                  (l.attempts c) (k.attempts c) (a.alike c))
          ];
        },
        rw (a.same_max, a.same_window, a.same_block) here.1,
        rw (a.same_max, a.same_window, a.same_block) here.2,
      )

  Alike-cleanup : Alike t (cleanup l t) k
  unfolding cleanup
  Alike-cleanup = record {
    same_max = a.same_max;
    same_window = a.same_window;
    same_block = a.same_block;
    alike = λ c. rw a.same_window (
        AlikeRecords-sweep k.max_attempts k.window_duration k.block_duration now t later
          (l.attempts c) (k.attempts c) (a.alike c));
  }

Alike-reset :
    (now : ℕ) (l k : LoginRateLimiter) (client : Text)
    → Alike now l k
    → Alike now (reset l client) (reset k client)
unfolding reset
Alike-reset now l k client a = record {
  same_max = a.same_max;
  same_window = a.same_window;
  same_block = a.same_block;
  alike = λ c. elim (Bool-cases (c == client)) [
    | inl mine ↦ rw mine tt
    | inr other ↦ rw other (a.alike c)
  ];
}

replies_of_Alike :
    (now : ℕ) (l k : LoginRateLimiter) (es : List Event)
    → Alike now l k
    → IsChronological now es
    → replies l es ≡ replies k (without_ticks es)
unfolding replies
replies_of_Alike now l k [] a h = refl
replies_of_Alike now l k (attempt client t ∷ es) a h =
    let (a', allowed, wait) = Alike-check now t h.0 l k a client in
    cc (allowed, wait, replies_of_Alike t (check l client t).0 (check k client t).0 es a' h.1)
replies_of_Alike now l k (success client ∷ es) a h =
    replies_of_Alike now (reset l client) (reset k client) es (Alike-reset now l k client a) h
replies_of_Alike now l k (tick t ∷ es) a h =
    replies_of_Alike t (cleanup l t) k es (Alike-cleanup now t h.0 l k a) h.1

AlikeRecords-refl : (window now : ℕ) (o : Option AttemptRecord) → AlikeRecords window now o o
AlikeRecords-refl window now none = tt
AlikeRecords-refl window now (some r) = (refl, refl, inl refl)

-- As long as the clock does not run backwards, a limiter gives every client the same answers, with
-- the same waiting times, whether or not the cleanup runs in between.
pub replies-without_ticks :
    (l : LoginRateLimiter) (now : ℕ) (es : List Event)
    → IsChronological now es
    → replies l es ≡ replies l (without_ticks es)
replies-without_ticks l now es h =
    replies_of_Alike now l l es
      (record {
        same_max = refl;
        same_window = refl;
        same_block = refl;
        alike = λ c. AlikeRecords-refl l.window_duration now (l.attempts c);
      })
      h
