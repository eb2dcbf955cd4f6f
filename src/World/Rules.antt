-- ===== src/World/Rules.antt =====
-- What an action leaves true of the world, however its calls to the outside end.
use sharm.Common.{Bool, true, false, Option, none, some, List, Text, if◌then◌else◌}
use sharm.Domain.Errors.{Error, outside}
use sharm.Domain.Errors
use sharm.Store.{Db}
use sharm.World.{
  World, Outcome, ok, err, panic, M, pure, throw, crash, bind, ◌>>=◌, ◌>>◌, wrap_error, or_wrap,
  drop_result, attempt, forget, ignore, when, next_outcome, later_outcomes, call, query,
}

-- The action keeps a statement about the world, on success, on an error and on a panic.
pub record Preserves (I : World → Type 0) {A : Type 0} (m : M A) : Type 0 where
  pub keeps : (w : World) → I w → I (m w).1

module _ (I : World → Type 0) where
  after_bind :
      {A B : Type 0} (r : Outcome A × World) (f : A → M B)
      → I r.1
      → ((a : A) → Preserves I (f a))
      → I (bind r f).1
  after_bind (ok a, w) f h k = (k a).keeps w h
  after_bind (err e, w) f h k = h
  after_bind (panic, w) f h k = h

  after_wrap :
      {A : Type 0} (prefix : Text) (r : Outcome A × World) → I r.1 → I (wrap_error prefix r).1
  after_wrap prefix (ok a, w) h = h
  after_wrap prefix (err e, w) h = h
  after_wrap prefix (panic, w) h = h

  after_drop : {A : Type 0} (r : Outcome A × World) → I r.1 → I (drop_result r).1
  after_drop (ok a, w) h = h
  after_drop (err e, w) h = h
  after_drop (panic, w) h = h

  after_forget : {A : Type 0} (r : Outcome A × World) → I r.1 → I (forget (drop_result r)).1
  after_forget (ok a, w) h = h
  after_forget (err e, w) h = h
  after_forget (panic, w) h = h

module _ {I : World → Type 0} {A : Type 0} where
  pub Preserves-bind :
      {B : Type 0} {m : M A} {f : A → M B}
      → Preserves I m
      → ((a : A) → Preserves I (f a))
      → Preserves I (m >>= f)
  unfolding ◌>>=◌
  Preserves-bind {m} {f} h k = record { keeps = λ w i. after_bind I (m w) f (h.keeps w i) k }

  pub Preserves-then :
      {m : M (Unit {0})} {k : M A} → Preserves I m → Preserves I k → Preserves I (m >> k)
  unfolding ◌>>◌
  Preserves-then {m} {k} h l = record {
    keeps = λ w i. after_bind I (m w) (λ _. k) (h.keeps w i) (λ _. l);
  }

  pub Preserves-or_wrap : (prefix : Text) {m : M A} → Preserves I m → Preserves I (or_wrap prefix m)
  unfolding or_wrap
  Preserves-or_wrap prefix {m} h = record { keeps = λ w i. after_wrap I prefix (m w) (h.keeps w i) }

  pub Preserves-attempt : {m : M A} → Preserves I m → Preserves I (attempt m)
  unfolding attempt
  Preserves-attempt {m} h = record { keeps = λ w i. after_drop I (m w) (h.keeps w i) }

  pub Preserves-ignore : {m : M A} → Preserves I m → Preserves I (ignore m)
  unfolding ignore
  Preserves-ignore {m} h = record { keeps = λ w i. after_forget I (m w) (h.keeps w i) }

  pub Preserves-if :
      (b : Bool) {m n : M A} → Preserves I m → Preserves I n → Preserves I (if b then m else n)
  Preserves-if true h k = h
  Preserves-if false h k = k

  pub Preserves-pure : (a : A) → Preserves I (pure a)
  unfolding pure
  Preserves-pure a = record { keeps = λ w i. i }

  pub Preserves-throw : (e : Error) → Preserves I (throw {A = A} e)
  unfolding throw
  Preserves-throw e = record { keeps = λ w i. i }

  pub Preserves-crash : Preserves I (crash {A = A})
  unfolding crash
  Preserves-crash = record { keeps = λ w i. i }

  pub Preserves-query : (f : Db → Errors.Result A) → Preserves I (query f)
  unfolding query
  Preserves-query f = record { keeps = λ w i. i }

pub Preserves-when :
    {I : World → Type 0} (b : Bool) {m : M (Unit {0})} → Preserves I m → Preserves I (when b m)
unfolding when
Preserves-when true h = h
Preserves-when false h = Preserves-pure tt

-- The rules that hold of every statement, for `search`.
pub ruleset preserving = (
  Preserves-bind, Preserves-then, Preserves-or_wrap, Preserves-attempt, Preserves-ignore,
  Preserves-if, Preserves-pure, Preserves-throw, Preserves-crash, Preserves-query, Preserves-when,
)

call_lem :
    {I : World → Type 0} {A : Type 0}
    → ((w : World) (os : List (Option Text)) → I w → I (record w { outcomes = os }))
    → {m : M A} → Preserves I m
    → (o : Option Text) (w' : World) → I w'
    → let r : Outcome A × World = elim o [ none ↦ m w' | some e ↦ (err (outside e), w') ] in I r.1
call_lem skip h none w' i = h.keeps w' i
call_lem skip h (some e) w' i = i

-- What does not speak of the outcomes is kept by a call if the action called keeps it.
pub Preserves-call :
    {I : World → Type 0} {A : Type 0}
    → ((w : World) (os : List (Option Text)) → I w → I (record w { outcomes = os }))
    → {m : M A} → Preserves I m
    → Preserves I (call m)
unfolding call
Preserves-call skip h = record {
  keeps = λ w i.
      call_lem skip h (next_outcome w.outcomes) (record w { outcomes = later_outcomes w.outcomes })
        (skip w (later_outcomes w.outcomes) i);
}
