-- ===== src/MediaService/AllOrNothing.antt =====
-- media.go, Upload: what is stored of an upload that fails.
use sharm.Common.{
  ℕ, ◌≡◌, refl, ◌∙◌, ℤ, Option, none, some, List, [], ◌∷◌, Text, text, Bool-cases, Option-cases,
  inl, inr,
}
use sharm.Golang.FilePath.{join, base}
use sharm.Domain.{Variant, Media, MediaType, Codec, JobType}
use sharm.Domain.Errors.{Error, wrapped}
use sharm.Domain.Errors
use sharm.Domain.Probe.{ProbeResult}
use sharm.Store.{Db}
use sharm.Store.Jobs.{enqueue, has_media}
use sharm.Store.Media.{save}
use sharm.World.{
  pure, ignore, World, M, Outcome, ok, err, panic, bind, ◌>>=◌, ◌>>◌, throw, call, statement,
  remove_file, clock, next_outcome, run_command, monad,
}
use sharm.World.Rules.{Preserves, preserving, Preserves-call}
use sharm.World.Success.{
  Succeeds, succeeding, Succeeds-bind, Succeeds-then, Succeeds-pure, Succeeds-if,
}
use sharm.Converter.Safety.{parsed-Preserves}
use sharm.Converter.{probe, validate_path}
use sharm.MediaService.Upload.{
  Uploads, handle_error, or_else, copy_file, move_file, generate_id, finish_as_is, add_variants,
  start_codecs, start_media, prepare, upload,
}

finish_as_is-Succeeds : (size : ℕ) (m : Media) → Succeeds (finish_as_is size m)
unfolding finish_as_is
finish_as_is-Succeeds size m = search succeeding

queue-Succeeds :
    (id : Text) (c : Codec) (fps : ℤ) (saved : Option Variant)
    → Succeeds (elim saved as (λ x. M (Unit {0})) [
      | none ↦ pure tt
      | some v ↦ ignore (call (statement (enqueue id JobType.convert c fps)))
    ])
queue-Succeeds id c fps none = search succeeding
queue-Succeeds id c fps (some v) = search succeeding

add_variants-Succeeds : (id : Text) (fps : ℤ) (cs : List Codec) → Succeeds (add_variants id fps cs)
unfolding add_variants
add_variants-Succeeds id fps [] = search succeeding
add_variants-Succeeds id fps (c ∷ cs) =
    let rest = add_variants-Succeeds id fps cs in
    Succeeds-bind (search succeeding) (λ saved. Succeeds-then (queue-Succeeds id c fps saved) rest)

start_codecs-Succeeds :
    (size : ℕ) (m : Media) (fps : ℤ) (cs : List Codec) → Succeeds (start_codecs size m fps cs)
unfolding start_codecs
start_codecs-Succeeds size m fps [] = search (succeeding, finish_as_is-Succeeds) depth 20
start_codecs-Succeeds size m fps (c ∷ cs) =
    Succeeds-then (add_variants-Succeeds m.id fps (c ∷ cs)) (Succeeds-pure m)

start_media-Succeeds :
    (size : ℕ) (m : Media) (fps : ℤ) (cs : List Codec) → Succeeds (start_media size m fps cs)
unfolding start_media
start_media-Succeeds size m fps cs =
    Succeeds-if _ (finish_as_is-Succeeds size m) (start_codecs-Succeeds size m fps _)

-- The database is this one.
abbrev Keeps : Db → World → Type 0
Keeps db w = w.db ≡ db

module _ (db : Db) where
  calling : {A : Type 0} {m : M A} → Preserves (Keeps db) m → Preserves (Keeps db) (call m)
  calling = Preserves-call (λ w os h. h)

  after_error :
      {A : Type 0} (r : Outcome A × World) (f : Error → M A)
      → Keeps db r.1
      → ((e : Error) → Preserves (Keeps db) (f e))
      → Keeps db (handle_error r f).1
  after_error (ok a, w) f h k = h
  after_error (err e, w) f h k = (k e).keeps w h
  after_error (panic, w) f h k = h

  or_else-Preserves :
      {A : Type 0} {m : M A} {f : Error → M A}
      → Preserves (Keeps db) m
      → ((e : Error) → Preserves (Keeps db) (f e))
      → Preserves (Keeps db) (or_else m f)
  unfolding or_else
  or_else-Preserves {m} {f} h k = record { keeps = λ w i. after_error (m w) f (h.keeps w i) k }

  remove_file-Preserves : (path : Text) → Preserves (Keeps db) (remove_file path)
  unfolding remove_file
  remove_file-Preserves path = record { keeps = λ w i. i }

  clock-Preserves : Preserves (Keeps db) clock
  unfolding clock
  clock-Preserves = record { keeps = λ w i. i }

  run_command-Preserves :
      (name : Text) (args : List Text) → Preserves (Keeps db) (run_command name args)
  unfolding run_command
  run_command-Preserves name args = record { keeps = λ w i. i }

  validate_path-Preserves : (path : Text) → Preserves (Keeps db) (validate_path path)
  unfolding validate_path
  validate_path-Preserves path = search preserving

  ruleset steps = (
    preserving, calling, or_else-Preserves, remove_file-Preserves, clock-Preserves,
    run_command-Preserves, validate_path-Preserves,
  )

  probe-Preserves :
      (f : Text → Errors.Result ProbeResult) (input : Text) → Preserves (Keeps db) (probe f input)
  unfolding probe
  probe-Preserves f input = search (steps, parsed-Preserves) depth 20

  generate_id-Preserves : (id : Option Text) → Preserves (Keeps db) (generate_id id)
  unfolding generate_id
  generate_id-Preserves none = search steps
  generate_id-Preserves (some id) = search steps

  copy_file-Preserves : Preserves (Keeps db) copy_file
  unfolding copy_file
  copy_file-Preserves = search steps depth 20

  move_file-Preserves : (source : Text) → Preserves (Keeps db) (move_file source)
  unfolding move_file
  move_file-Preserves source = search (steps, copy_file-Preserves) depth 20

  prepare-Preserves :
      (uploads : Uploads) (filename source : Text) (days : ℤ) (type : MediaType)
      → Preserves (Keeps db) (prepare uploads filename source days type)
  unfolding prepare
  prepare-Preserves uploads filename source days type =
      search (steps, move_file-Preserves, generate_id-Preserves, probe-Preserves) depth 30

-- The saving of a media, as Upload handles its error.
abbrev saving : Text → Media → M (Unit {0})
saving path media =
    or_else (call (statement (λ now. save media)))
      (λ e. remove_file path >> throw (wrapped (text "failed to save media metadata") e))

saving-error :
    (path : Text) (media : Media) (w : World) (e : Error)
    → (saving path media w).0 ≡ err e
    → (saving path media w).1.db ≡ w.db
unfolding or_else monad save
saving-error path media w e = elim (Option-cases (next_outcome w.outcomes)) [
  | inr (t, down) ↦ rw (call, down) (λ h. refl)
  | inl up ↦ elim (Bool-cases (has_media media.id w.db.media)) [
    | inl twice ↦ rw (call, up, twice) (λ h. refl)
    | inr new ↦ rw (call, up, new) (λ h. absurd (cc h))
  ]
]

-- Where an action that cannot fail comes last, an error is that of what comes before.
then_error :
    {A : Type 0} (p : Outcome (Unit {0}) × World) (k : M A) (db : Db) (e : Error)
    → Succeeds k
    → ((e : Error) → p.0 ≡ err e → p.1.db ≡ db)
    → (bind p (λ _. k)).0 ≡ err e
    → (bind p (λ _. k)).1.db ≡ db
then_error (ok a, w) k db e s f h = let (b, gives) = s.gives w in absurd (cc (h, gives))
then_error (err e', w) k db e s f h = f e' refl
then_error (panic, w) k db e s f h = absurd (cc h)

after_prepare :
    {A : Type 0} (p : Outcome Media × World) (k : Media → M A) (db : Db) (e : Error)
    → p.1.db ≡ db
    → ((m : Media) (w : World) → (k m w).0 ≡ err e → (k m w).1.db ≡ w.db)
    → (bind p k).0 ≡ err e
    → (bind p k).1.db ≡ db
after_prepare (ok m, w) k db e s f h = f m w h ∙ s
after_prepare (err e', w) k db e s f h = s
after_prepare (panic, w) k db e s f h = s

-- However the calls to the outside end, an upload that returns an error has left the database as it
-- was.
pub upload-error :
    (uploads : Uploads) (filename source : Text) (days : ℤ) (type : MediaType) (codecs : List Codec)
    (fps : ℤ) (w : World) (e : Error)
    → (upload uploads filename source days type codecs fps w).0 ≡ err e
    → (upload uploads filename source days type codecs fps w).1.db ≡ w.db
unfolding upload ◌>>=◌ ◌>>◌
upload-error uploads filename source days type codecs fps w e =
    after_prepare (prepare uploads filename source days type w) _ w.db e
      ((prepare-Preserves w.db uploads filename source days type).keeps w refl)
      (λ m w'.
        then_error (saving (join uploads.upload_dir (base filename)) m w')
          (start_media uploads.size m fps codecs) w'.db e
          (start_media-Succeeds uploads.size m fps codecs)
          (λ e'. saving-error (join uploads.upload_dir (base filename)) m w' e'))
