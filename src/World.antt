-- ===== src/World.antt =====
-- What the services act on: the database, the event bus as they see it, and the calls that leave
-- the program. Each such call may fail; `outcomes` says how the next ones end.
pub mod Rules
pub mod Success
use sharm.Common.{
  ℕ, Bool, true, false, Option, none, some, List, [], ◌∷◌, ◌++◌, Text, if◌then◌else◌,
}
use sharm.Domain.Errors.{Error, outside, wrapped}
use sharm.Domain.Errors
use sharm.Store.{Db}

-- service.Event
pub record Event : Type 0 where
  pub type : Text
  pub status : Text
  pub message : Text

pub record World : Type 0 where
  pub db : Db
  -- What was published, with the media it is about, in order.
  pub events : List (Text × Event)
  -- How the next calls to the outside end: `none` is success, and so is every call after the last.
  pub outcomes : List (Option Text)
  -- The external commands that were run, in order.
  pub commands : List (Text × List Text)
  -- The files that were removed, in order.
  pub removed : List Text
  pub now : ℕ

-- What a call returns; a panic ends the process.
pub data Outcome {ℓ} (A : Type ℓ) : Type ℓ where
  ok : A → Outcome A
  err : Error → Outcome A
  panic : Outcome A

abbrev pub M : Type 0 → Type 0
M A = World → Outcome A × World

unfoldable pub pure : {A : Type 0} → A → M A
pure a w = (ok a, w)

unfoldable pub throw : {A : Type 0} → Error → M A
throw e w = (err e, w)

unfoldable pub crash : {A : Type 0} → M A
crash w = (panic, w)

abbrev pub bind : {A B : Type 0} → Outcome A × World → (A → M B) → Outcome B × World
bind (ok a, w) f = f a w
bind (err e, w) f = (err e, w)
bind (panic, w) f = (panic, w)

infixl 5 ◌>>=◌ ◌>>◌
unfoldable pub ◌>>=◌ : {A B : Type 0} → M A → (A → M B) → M B
◌>>=◌ m f w = bind (m w) f

unfoldable pub ◌>>◌ : {B : Type 0} → M (Unit {0}) → M B → M B
◌>>◌ m k w = bind (m w) (λ _. k)

-- if err != nil { return fmt.Errorf(prefix + ": %w", err) }
abbrev pub wrap_error : {A : Type 0} → Text → Outcome A × World → Outcome A × World
wrap_error prefix (ok a, w) = (ok a, w)
wrap_error prefix (err e, w) = (err (wrapped prefix e), w)
wrap_error prefix (panic, w) = (panic, w)

unfoldable pub or_wrap : {A : Type 0} → Text → M A → M A
or_wrap prefix m w = wrap_error prefix (m w)

abbrev pub drop_result : {A : Type 0} → Outcome A × World → Outcome (Option A) × World
drop_result (ok a, w) = (ok (some a), w)
drop_result (err e, w) = (ok none, w)
drop_result (panic, w) = (panic, w)

-- The error is not returned: the value, if there is one.
unfoldable pub attempt : {A : Type 0} → M A → M (Option A)
attempt m w = drop_result (m w)

abbrev pub forget : {A : Type 0} → Outcome (Option A) × World → Outcome (Unit {0}) × World
forget (ok a, w) = (ok tt, w)
forget (err e, w) = (err e, w)
forget (panic, w) = (panic, w)

-- _ = f()
unfoldable pub ignore : {A : Type 0} → M A → M (Unit {0})
ignore m w = forget (drop_result (m w))

unfoldable pub when : Bool → M (Unit {0}) → M (Unit {0})
when true m = m
when false m = pure tt

abbrev pub next_outcome : List (Option Text) → Option Text
next_outcome [] = none
next_outcome (o ∷ os) = o

abbrev pub later_outcomes : List (Option Text) → List (Option Text)
later_outcomes [] = []
later_outcomes (o ∷ os) = os

-- A call to the outside: it fails, or does what `f` says.
unfoldable pub call : {A : Type 0} → M A → M A
call f w =
    let w' = record w { outcomes = later_outcomes w.outcomes } in
    elim (next_outcome w.outcomes) [ none ↦ f w' | some e ↦ (err (outside e), w') ]

abbrev pub lift : {A : Type 0} → Errors.Result A → Outcome A
lift (Errors.ok a) = ok a
lift (Errors.err e) = err e

abbrev pub keep : {A : Type 0} → World → Errors.Result A × Db → Outcome A × World
keep w (r, db) = (lift r, record w { db = db })

-- A statement that may refuse, a query, and a statement that only writes.
unfoldable pub statement : {A : Type 0} → (ℕ → Db → Errors.Result A × Db) → M A
statement f w = keep w (f w.now w.db)

unfoldable pub query : {A : Type 0} → (Db → Errors.Result A) → M A
query f w = (lift (f w.db), w)

unfoldable pub write : (ℕ → Db → Db) → M (Unit {0})
write f w = (ok tt, record w { db = f w.now w.db })

unfoldable pub publish : Text → Event → M (Unit {0})
publish id e w = (ok tt, record w { events = w.events ++ ((id, e) ∷ []) })

-- os.Remove: that the file is gone.
unfoldable pub remove_file : Text → M (Unit {0})
remove_file path w = (ok tt, record w { removed = w.removed ++ (path ∷ []) })

-- exec.Command(name, args...): the command is started, however it ends.
unfoldable pub run_command : Text → List Text → M (Unit {0})
run_command name args w = (ok tt, record w { commands = w.commands ++ ((name, args) ∷ []) })

-- A value that may be missing, which is then this error.
abbrev pub need : {A : Type 0} → Error → Option A → M A
need e (some a) = pure a
need e none = throw e

-- time.Now()
unfoldable pub clock : M ℕ
clock w = (ok w.now, w)

-- To unfold this is to unfold all of the above.
unfoldable pub monad : Unit {0}
unfolding ◌>>=◌ ◌>>◌ pure throw crash or_wrap attempt ignore when call statement query write publish
    clock remove_file run_command
monad = tt
