-- ===== src/Worker/Settled.antt =====
-- worker.go: settle and failVariant, whose last variant is done or has failed.
use sharm.Common.{
  ℕ, ◌≡◌, ◌≢◌, refl, Option, none, some, [], Text, Bool-cases, Option-cases, inl, inr,
}
use sharm.Domain.{Media, MediaStatus, Variant, Job}
use sharm.Domain.Variants.{all_variants_terminal, has_done_variant, best_variant, has_done-eq-best}
use sharm.Domain.Errors
use sharm.Store.{Db}
use sharm.World.{
  World, Event, Outcome, lift, pure, query, publish, forget, drop_result, ok, err, panic, M, bind,
  ◌>>=◌, ◌>>◌, ignore, call, write, next_outcome,
}
use sharm.Worker.{publish_status}
use sharm.Worker.Convert.{settle, fail_with, settle_after_failure, fail_variant, conversion}

-- The action never panics, however its calls to the outside end.
record IsCalm {A : Type 0} (m : M A) : Type 0 where
  calm : (w : World) → (m w).0 ≢ panic

module _ {A B : Type 0} where
  bind_lem :
      (r : Outcome A × World) (f : A → M B)
      → r.0 ≢ panic
      → ((a : A) → IsCalm (f a))
      → (bind r f).0 ≢ panic
  bind_lem (ok a, w) f h k = (k a).calm w
  bind_lem (err e, w) f h k = λ p. cc p
  bind_lem (panic, w) f h k = absurd (h refl)

  IsCalm-bind : {m : M A} {f : A → M B} → IsCalm m → ((a : A) → IsCalm (f a)) → IsCalm (m >>= f)
  unfolding ◌>>=◌
  IsCalm-bind {m} {f} h k = record { calm = λ w. bind_lem (m w) f (h.calm w) k }

IsCalm-then : {B : Type 0} {m : M (Unit {0})} {k : M B} → IsCalm m → IsCalm k → IsCalm (m >> k)
unfolding ◌>>◌
IsCalm-then {m} {k} h l = record { calm = λ w. bind_lem (m w) (λ _. k) (h.calm w) (λ _. l) }

IsCalm-write : (f : ℕ → Db → Db) → IsCalm (write f)
unfolding write
IsCalm-write f = record { calm = λ w p. cc p }

IsCalm-publish : (id : Text) (e : Event) → IsCalm (publish id e)
unfolding publish
IsCalm-publish id e = record { calm = λ w p. cc p }

IsCalm-pure : {A : Type 0} (a : A) → IsCalm (pure a)
unfolding pure
IsCalm-pure a = record { calm = λ w p. cc p }

query_lem : {A : Type 0} (r : Errors.Result A) → lift r ≢ panic
query_lem (Errors.ok a) p = cc p
query_lem (Errors.err e) p = cc p

IsCalm-query : {A : Type 0} (f : Db → Errors.Result A) → IsCalm (query f)
unfolding query
IsCalm-query f = record { calm = λ w. query_lem (f w.db) }

call_lem :
    {A : Type 0} (m : M A) (o : Option Text) (w : World)
    → IsCalm m
    → let r : Outcome A × World = elim o [ none ↦ m w | some e ↦ (err (Errors.outside e), w) ] in
      r.0 ≢ panic
call_lem m none w h = h.calm w
call_lem m (some e) w h = λ p. cc p

IsCalm-call : {A : Type 0} {m : M A} → IsCalm m → IsCalm (call m)
unfolding call
IsCalm-call {m} h = record { calm = λ w. call_lem m (next_outcome w.outcomes) _ h }

ignore_lem : {A : Type 0} (r : Outcome A × World) → r.0 ≢ panic → (forget (drop_result r)).0 ≡ ok tt
ignore_lem (ok a, w) h = refl
ignore_lem (err e, w) h = refl
ignore_lem (panic, w) h = absurd (h refl)

ignore-ok : {A : Type 0} {m : M A} → IsCalm m → (w : World) → (ignore m w).0 ≡ ok tt
unfolding ignore
ignore-ok {m} h w = ignore_lem (m w) (h.calm w)

IsCalm-ignore : {A : Type 0} {m : M A} → IsCalm m → IsCalm (ignore m)
IsCalm-ignore h = record { calm = λ w p. cc (p, ignore-ok h w) }

ruleset calm_steps = (
  IsCalm-bind, IsCalm-then, IsCalm-write, IsCalm-publish, IsCalm-pure, IsCalm-query, IsCalm-call,
  IsCalm-ignore,
)

publish_status-IsCalm : (id : Text) (s : MediaStatus) (m : Text) → IsCalm (publish_status id s m)
unfolding publish_status
publish_status-IsCalm id s m = search calm_steps

fail_with-IsCalm : (m : Media) (v : Variant) → IsCalm (fail_with m (some v))
unfolding fail_with
fail_with-IsCalm m v = search (calm_steps, publish_status-IsCalm)

settle_after_failure-IsCalm : (m : Media) → IsCalm (settle_after_failure m)
unfolding settle_after_failure has_done_variant best_variant
settle_after_failure-IsCalm m = elim (Bool-cases (all_variants_terminal m)) [
  | inr open_ ↦ rw (open_) (search calm_steps)
  | inl over ↦ elim (Option-cases (best_variant m)) [
    | inl failed ↦
        rw (over, (has_done-eq-best m.variants).1 failed)
          (search (calm_steps, publish_status-IsCalm))
    | inr (v, best) ↦ elim (Bool-cases (has_done_variant m)) [
      | inl some_done ↦ rw (over, some_done, best) (fail_with-IsCalm m v)
      | inr none_done ↦ rw (over, none_done) (search (calm_steps, publish_status-IsCalm))
    ]
  ]
]

-- However its calls to the outside end, failVariant returns and never panics: where it takes the
-- best variant of a media with a finished one, there is one.
pub fail_variant-ok : (job : Job) (w : World) → (fail_variant job w).0 ≡ ok tt
unfolding fail_variant
fail_variant-ok job w = ignore-ok (search (calm_steps, settle_after_failure-IsCalm) depth 20) w

-- Where no call to the outside fails, a media is settled alike after a success and after a failure:
-- the database is the same.
pub settle-calm :
    (m : Media) (w : World)
    → (settle m (record w { outcomes = [] })).1.db
      ≡ (settle_after_failure m (record w { outcomes = [] })).1.db
unfolding conversion has_done_variant best_variant
settle-calm m w = elim (Bool-cases (all_variants_terminal m)) [
  | inr open_ ↦ rw (open_) refl
  | inl over ↦ elim (Option-cases (best_variant m)) [
    | inl failed ↦ rw (over, failed, (has_done-eq-best m.variants).1 failed) refl
    | inr (v, best) ↦ elim (Bool-cases (has_done_variant m)) [
      | inl some_done ↦ rw (over, some_done, best) refl
      | inr none_done ↦ absurd (cc (best, (has_done-eq-best m.variants).0 none_done))
    ]
  ]
]
