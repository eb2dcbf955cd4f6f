-- ===== src/World/Success.antt =====
-- Actions that return a value in every world.
use sharm.Common.{◌≡◌, refl, Bool, true, false, ℕ, Option, none, some, Text, if◌then◌else◌}
use sharm.Domain.Errors.{Error, outside, Result-cases}
use sharm.Domain.Errors
use sharm.Store.{Db}
use sharm.World.{
  World, Outcome, ok, err, panic, M, pure, bind, ◌>>=◌, ◌>>◌, drop_result, attempt, forget, ignore,
  next_outcome, later_outcomes, call, statement, write, lift, keep,
}

pub record Succeeds {A : Type 0} (m : M A) : Type 0 where
  pub gives : (w : World) → (a : A) × ((m w).0 ≡ ok a)

abbrev NoPanic : {A : Type 0} → Outcome A → Type 0
NoPanic (ok a) = Unit
NoPanic (err e) = Unit
NoPanic panic = ⊥

-- The action may fail, but does not panic.
pub record IsSafe {A : Type 0} (m : M A) : Type 0 where
  pub no_panic : (w : World) → NoPanic (m w).0

after_bind :
    {A B : Type 0} (r : Outcome A × World) (f : A → M B)
    → ((a : A) × (r.0 ≡ ok a))
    → ((a : A) → Succeeds (f a))
    → (b : B) × ((bind r f).0 ≡ ok b)
after_bind (ok a, w) f h k = (k a).gives w
after_bind (err e, w) f (a, h) k = absurd (cc h)
after_bind (panic, w) f (a, h) k = absurd (cc h)

after_drop :
    {A : Type 0} (r : Outcome A × World) → NoPanic r.0 → (o : Option A) × ((drop_result r).0 ≡ ok o)
after_drop (ok a, w) h = (some a, refl)
after_drop (err e, w) h = (none, refl)
after_drop (panic, w) h = absurd h

after_forget :
    {A : Type 0} (r : Outcome A × World)
    → NoPanic r.0
    → (u : Unit {0}) × ((forget (drop_result r)).0 ≡ ok u)
after_forget (ok a, w) h = (tt, refl)
after_forget (err e, w) h = (tt, refl)
after_forget (panic, w) h = absurd h

pub Succeeds-bind :
    {A B : Type 0} {m : M A} {f : A → M B}
    → Succeeds m
    → ((a : A) → Succeeds (f a))
    → Succeeds (m >>= f)
unfolding ◌>>=◌
Succeeds-bind {m} {f} h k = record { gives = λ w. after_bind (m w) f (h.gives w) k }

pub Succeeds-then :
    {B : Type 0} {m : M (Unit {0})} {k : M B} → Succeeds m → Succeeds k → Succeeds (m >> k)
unfolding ◌>>◌
Succeeds-then {m} {k} h l = record { gives = λ w. after_bind (m w) (λ _. k) (h.gives w) (λ _. l) }

pub Succeeds-pure : {A : Type 0} (a : A) → Succeeds (pure a)
unfolding pure
Succeeds-pure a = record { gives = λ w. (a, refl) }

pub Succeeds-if :
    {A : Type 0} (b : Bool) {m n : M A} → Succeeds m → Succeeds n → Succeeds (if b then m else n)
Succeeds-if true h k = h
Succeeds-if false h k = k

pub Succeeds-attempt : {A : Type 0} {m : M A} → IsSafe m → Succeeds (attempt m)
unfolding attempt
Succeeds-attempt {m} h = record { gives = λ w. after_drop (m w) (h.no_panic w) }

pub Succeeds-ignore : {A : Type 0} {m : M A} → IsSafe m → Succeeds (ignore m)
unfolding ignore
Succeeds-ignore {m} h = record { gives = λ w. after_forget (m w) (h.no_panic w) }

pub IsSafe-pure : {A : Type 0} (a : A) → IsSafe (pure a)
unfolding pure
IsSafe-pure a = record { no_panic = λ w. tt }

pub IsSafe-write : (f : ℕ → Db → Db) → IsSafe (write f)
unfolding write
IsSafe-write f = record { no_panic = λ w. tt }

lift-NoPanic : {A : Type 0} (r : Errors.Result A) → NoPanic (lift r)
lift-NoPanic (Errors.ok a) = tt
lift-NoPanic (Errors.err e) = tt

keep-NoPanic : {A : Type 0} (w : World) (r : Errors.Result A × Db) → NoPanic (keep w r).0
keep-NoPanic w (r, db) = lift-NoPanic r

pub IsSafe-statement : {A : Type 0} (f : ℕ → Db → Errors.Result A × Db) → IsSafe (statement f)
unfolding statement
IsSafe-statement f = record { no_panic = λ w. keep-NoPanic w (f w.now w.db) }

call_lem :
    {A : Type 0} {m : M A}
    → IsSafe m
    → (o : Option Text) (w' : World)
    → let r : Outcome A × World = elim o [ none ↦ m w' | some e ↦ (err (outside e), w') ] in
      NoPanic r.0
call_lem h none w' = h.no_panic w'
call_lem h (some e) w' = tt

pub IsSafe-call : {A : Type 0} {m : M A} → IsSafe m → IsSafe (call m)
unfolding call
IsSafe-call h = record {
  no_panic =
      λ w. call_lem h (next_outcome w.outcomes) (record w { outcomes = later_outcomes w.outcomes });
}

-- The rules, for `search`.
pub ruleset succeeding = (
  Succeeds-bind, Succeeds-then, Succeeds-pure, Succeeds-if, Succeeds-attempt, Succeeds-ignore,
  IsSafe-pure, IsSafe-write, IsSafe-statement, IsSafe-call,
)
