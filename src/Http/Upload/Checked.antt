-- ===== src/Http/Upload/Checked.antt =====
-- handler.go: which files reach the service.
use sharm.Common.{
  ℤ, ap, ◌≡◌, refl, ◌⊎◌, inl, inr, Bool, true, false, Option, none, some, List, Text, take,
  Option-cases,
}
use sharm.Domain.{Media, MediaType, Codec}
use sharm.Domain.Errors
use sharm.World.{
  M, World, Outcome, ok, err, panic, ◌>>=◌, call, next_outcome, later_outcomes, monad,
}
use sharm.Http.Validation.FileType.{magic_bytes_buffer_size, classify, validate_magic_bytes}
use sharm.Http.Exchange.{Request, Exchange, after, calling}
use sharm.Http.Chunks.Complete.{Service}
use sharm.Http.Upload.{FormFile, checked, with_form_file, upload_handler}

-- What follows the check of a file, by the outcome of the check.
checked-cases :
    (service other : Service) (codecs : List Text) (r : Request) (file : FormFile) (x : Exchange)
    (p : Outcome (Text × Bool) × World)
    → ((mime : Text) × (p.0 ≡ ok (mime, true)))
      ⊎ (after x p (checked service codecs r file) ≡ after x p (checked other codecs r file))
unfolding checked
checked-cases service other codecs r file x (ok (mime, true), w) = inl (mime, refl)
checked-cases service other codecs r file x (ok (mime, false), w) = inr refl
checked-cases service other codecs r file x (err e, w) = inr refl
checked-cases service other codecs r file x (panic, w) = inr refl

module _ (detect : Text → Text) where
  validate_magic_bytes-ok :
      (content : Text) (w : World) (p : Text × Bool)
      → (validate_magic_bytes detect content w).0 ≡ ok p
      → classify detect (take magic_bytes_buffer_size content) ≡ p
  unfolding validate_magic_bytes monad
  validate_magic_bytes-ok content w p h =
      let r = validate_magic_bytes detect content w in
      elim (Option-cases (next_outcome w.outcomes)) [
        | inr (e, down) ↦
            let failed : r.0 ≡ err (Errors.outside e) = rw (◌>>=◌, call, down) refl in
            absurd (cc (h, failed))
        | inl up ↦ elim (Option-cases (next_outcome (later_outcomes w.outcomes))) [
          | inr (e, down) ↦
              let failed : r.0 ≡ err (Errors.outside e) = rw (◌>>=◌, call, up, down) refl in
              absurd (cc (h, failed))
          | inl up_again ↦
              let done : r.0 ≡ ok (classify detect (take magic_bytes_buffer_size content)) =
                rw (◌>>=◌, call, up, up_again) refl in
              cc (h, done)
        ]
      ]

-- However the calls to the outside end, the upload in one request is answered without the service's
-- Upload, whatever that is, unless the form could be parsed and has a file whose first bytes are
-- those of a type that is allowed.
pub upload_handler-cases :
    (service : Service) (upload : Text → Text → ℤ → MediaType → List Codec → ℤ → M Media)
    (parsed : Bool) (file : Option FormFile) (codecs : List Text) (r : Request) (x : Exchange)
    → ((parsed ≡ true)
        × (name : Text) × (content : Text) × (file ≡ some (name, content))
        × ((classify service.detect_content_type (take magic_bytes_buffer_size content)).1 ≡ true))
      ⊎ (upload_handler service parsed file codecs r x
          ≡ upload_handler (record service { upload = upload }) parsed file codecs r x)
unfolding upload_handler with_form_file calling
upload_handler-cases service upload false file codecs r x = inr refl
upload_handler-cases service upload true none codecs r x = inr refl
upload_handler-cases service upload true (some (name, content)) codecs r x =
    let detect = service.detect_content_type in
    let other = record service { upload = upload } in
    elim (checked-cases service other codecs r (name, content) x
      (validate_magic_bytes detect content x.world)) [
        | inr same ↦ inr same
        | inl (mime, h) ↦
            let is_allowed = validate_magic_bytes-ok detect content x.world (mime, true) h in
            inl (refl, name, content, refl, ap (λ (p : Text × Bool). p.1) is_allowed)
      ]
