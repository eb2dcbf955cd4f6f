-- ===== src/Worker/Status.antt =====
-- worker.go: the stored status of a media when a variant has ended.
use sharm.Common.{
  ◌≡◌, refl, sym, subst, ap, ◌∙◌, Option, none, some, List, [], ◌∷◌, Text, text, ◌==◌, text_eq,
  text_beq_iff, Bool-cases, Option-cases, inl, inr, arith, if◌then◌else◌,
}
use sharm.Domain.{Media, MediaStatus, Variant, VariantStatus, Job}
use sharm.Domain.Errors
use sharm.Domain.Variants.{
  all_variants_terminal, has_done_variant, best_variant, has_done-eq-best, mark_as_done,
}
use sharm.Store.{Db, Medium, select_one, update_where}
use sharm.Store.Media.{get, medium_to_media, update_status, set_status, update_done, set_done}
use sharm.Store.Variants.{
  list_variants_by_media, get_variant_by_media_and_codec, update_variant_status,
}
use sharm.World.{World, Outcome, ok, err, panic, forget, drop_result, ◌>>=◌, ◌>>◌, ignore, monad}
use sharm.Worker.Convert.{mark_as_best, settle, settle_after_failure, fail_variant, conversion}
use sharm.Worker.Settled.{settle-calm}

abbrev status_of : Option Medium → Option MediaStatus
status_of none = none
status_of (some r) = some r.status

-- The status in the row of a media.
abbrev pub stored_status : Text → Db → Option MediaStatus
stored_status id db = status_of (select_one (λ (r : Medium). r.id == id) db.media)

-- What the status of a media is to be: done or failed once all its variants have ended.
abbrev pub settled_status : Media → MediaStatus
settled_status m =
    if all_variants_terminal m
    then (if has_done_variant m then MediaStatus.done else MediaStatus.failed)
    else m.status

module _ (id : Text) where
  -- An UPDATE of the row that is found.
  status-update_where :
      (set : Medium → Medium) (s : MediaStatus)
      → ((r : Medium) → ((set r).id ≡ r.id) × ((set r).status ≡ s))
      → (rs : List Medium) (r : Medium) → select_one (λ (r : Medium). r.id == id) rs ≡ some r
      → status_of (select_one (λ (r : Medium). r.id == id) (update_where (λ r. r.id == id) set rs))
        ≡ some s
  unfolding select_one update_where
  status-update_where set s does [] r h = absurd (cc h)
  status-update_where set s does (q ∷ rs) r h = elim (Bool-cases (q.id == id)) [
    | inl mine ↦ rw (mine, (does q).0, mine) (ap (λ x. some x) (does q).1)
    | inr other ↦ rw (other, other) (status-update_where set s does rs r (ground arith))
  ]

  found_row :
      (rs : List Medium) (r : Medium)
      → select_one (λ (r : Medium). r.id == id) rs ≡ some r
      → r.id ≡ id
  unfolding select_one
  found_row [] r h = absurd (cc h)
  found_row (q ∷ rs) r h = elim (Bool-cases (q.id == id)) [
    | inl mine ↦
        let same : q ≡ r = ground arith in ap (λ x. x.id) (sym same) ∙ (text_beq_iff q.id id).0 mine
    | inr other ↦ found_row rs r (ground arith)
  ]

  get-row :
      (m : Media) (db : Db)
      → get id db ≡ Errors.ok m
      → (r : Medium) × (select_one (λ (r : Medium). r.id == id) db.media ≡ some r)
        × (m.id ≡ id)
        × (m.status ≡ r.status)
  unfolding get medium_to_media
  get-row m db h = elim (Option-cases (select_one (λ (r : Medium). r.id == id) db.media)) [
    | inl nothing ↦
        let e : get id db ≡ Errors.err Errors.not_found = rw (nothing, get) refl in
        absurd (cc (h, e))
    | inr (r, found) ↦
        let n = medium_to_media r (list_variants_by_media id db) in
        let e : get id db ≡ Errors.ok n = rw (found, get) refl in
        let same : m ≡ n = cc (h, e) in
        (
          r,
          found,
          ap (λ (x : Media). x.id) same ∙ found_row db.media r found,
          ap (λ (x : Media). x.status) same,
        )
  ]

  -- The status that is stored after the media was settled.
  settle_after_failure-status :
      (m : Media) (w : World)
      → get id w.db ≡ Errors.ok m
      → stored_status id (settle_after_failure m (record w { outcomes = [] })).1.db
        ≡ some (settled_status m)
  unfolding conversion update_status update_done mark_as_done has_done_variant best_variant
      set_status set_done
  settle_after_failure-status m w h =
      let (r, found, mine, status) = get-row m w.db h in
      elim (Bool-cases (all_variants_terminal m)) [
        | inr open_ ↦ rw (open_, found, status) refl
        | inl over ↦ elim (Bool-cases (has_done_variant m)) [
          | inr none_done ↦
              rw (over, none_done, mine)
                (status-update_where (set_status MediaStatus.failed (text "all conversions failed"))
                  MediaStatus.failed (λ r. (refl, refl)) w.db.media r found)
          | inl some_done ↦ elim (Option-cases (best_variant m)) [
            | inl failed ↦ absurd (cc (some_done, (has_done-eq-best m.variants).1 failed))
            | inr (v, best) ↦
                rw (over, some_done, best, mine)
                  (status-update_where (set_done (mark_as_best m v)) MediaStatus.done
                    (λ r. (refl, refl)) w.db.media r found)
          ]
        ]
      ]

-- Where no call to the outside fails: when a media of the store is settled after a variant has
-- ended, by success or by failure, its stored status is `done` if all its variants have ended and
-- one is done, `failed` if all have ended and none is done, and unchanged otherwise.
pub settle-status :
    (id : Text) (m : Media) (w : World)
    → w.outcomes ≡ []
    → get id w.db ≡ Errors.ok m
    → (stored_status id (settle m w).1.db ≡ some (settled_status m))
      × (stored_status id (settle_after_failure m w).1.db ≡ some (settled_status m))
settle-status id m w h found =
    subst
      (λ os.
        (stored_status id (settle m (record w { outcomes = os })).1.db ≡ some (settled_status m))
        × (stored_status id (settle_after_failure m (record w { outcomes = os })).1.db
            ≡ some (settled_status m)))
      (sym h)
      (
        ap (stored_status id) (settle-calm m w) ∙ settle_after_failure-status id m w found,
        settle_after_failure-status id m w found,
      )

forget_lem : {A : Type 0} (r : Outcome A × World) → (forget (drop_result r)).1 ≡ r.1
forget_lem (ok a, w) = refl
forget_lem (err e, w) = refl
forget_lem (panic, w) = refl

fail_variant-calm :
    (job : Job) (w : World) (v : Variant) (m : Media)
    → get_variant_by_media_and_codec job.media_id job.codec w.db ≡ Errors.ok v
    → let db = update_variant_status v.id VariantStatus.failed job.error_message w.db in
      get job.media_id db ≡ Errors.ok m
      → (fail_variant job (record w { outcomes = [] })).1.db
        ≡ (settle_after_failure m (record w { outcomes = []; db = db })).1.db
unfolding fail_variant monad
fail_variant-calm job w v m found stored =
    rw (found, ignore, ◌>>=◌, ◌>>◌, stored)
      (ap (λ (x : World). x.db)
        (forget_lem (
          settle_after_failure m (record w {
            outcomes = [];
            db = update_variant_status v.id VariantStatus.failed job.error_message w.db;
          }))))

-- Where no call to the outside fails: after failVariant has recorded the failure of a variant, the
-- stored status of its media is `failed` if with this all variants have ended and none is done,
-- `done` if all have ended and one is done, and unchanged otherwise.
pub fail_variant-status :
    (job : Job) (v : Variant) (m : Media) (w : World)
    → w.outcomes ≡ []
    → get_variant_by_media_and_codec job.media_id job.codec w.db ≡ Errors.ok v
    → get job.media_id (update_variant_status v.id VariantStatus.failed job.error_message w.db)
      ≡ Errors.ok m
    → stored_status job.media_id (fail_variant job w).1.db ≡ some (settled_status m)
fail_variant-status job v m w h found stored =
    let db = update_variant_status v.id VariantStatus.failed job.error_message w.db in
    subst
      (λ os.
        stored_status job.media_id (fail_variant job (record w { outcomes = os })).1.db
        ≡ some (settled_status m))
      (sym h)
      (ap (stored_status job.media_id) (fail_variant-calm job w v m found stored)
        ∙ settle_after_failure-status job.media_id m (record w { db = db }) stored)
