-- ===== src/MediaService/Removal.antt =====
-- service/media.go: which media Get returns, and which rows and files Delete removes.
use sharm.Common.{
  not, ltb, ◌≡◌, ◌≤◌, ◌↔◌, refl, sym, ap, subst, ◌∙◌, Option-cases, List, [], ◌∷◌, ◌++◌, Text, ◌==◌,
  text_eq, arith, Bool-cases, inl, inr,
}
use mathlib.Core.List.{append_assoc, append-nil}
use sharm.Domain.{Media, Variant, Job}
use sharm.Domain.Variants.{is_expired}
use sharm.Domain.Errors
use sharm.Store.{select, order_by, Db, Medium, delete_where, select_one}
use sharm.Store.Rows.{
  Without, IsFirst, select-Without, Without-select, delete_where-Without, select_one-IsFirst,
  IsFirst-select_one,
}
use sharm.Store.Variants.{list_variants_by_media}
use sharm.Store.Media.{medium_of, medium_to_media, get, delete_media}
use sharm.World.{World, ok, M, ◌>>=◌, ◌>>◌, clock, monad}
use sharm.MediaService.{get_media, delete, store_delete, remove_unless_empty}
use sharm.MediaService.Deletion.{
  calm, named, paths, remove_variants_lem, store_delete_lem, delete_media-db,
}

-- The media of an id: the first row that has it, as Save writes one, with the variants of the id, the
-- older ones first.
abbrev pub IsStored : Db → Text → Media → Type 0
IsStored db id m =
    IsFirst (λ (r : Medium). r.id == id) (medium_of m) db.media
    × ((vs : List Variant) × Without (λ (v : Variant). not (v.media_id == id)) db.variants vs
        × (m.variants ≡ order_by (λ (v w : Variant). ltb v.created_at w.created_at) vs))

get_iff : (id : Text) (m : Media) (db : Db) → (get id db ≡ Errors.ok m) ↔ IsStored db id m
unfolding get medium_of medium_to_media list_variants_by_media
get_iff id m db =
    let rows = select (λ (v : Variant). v.media_id == id) db.variants in
    (
      λ h. elim (Option-cases (select_one (λ (r : Medium). r.id == id) db.media)) [
        | inl lost ↦ absurd (ground arith)
        | inr (row, found) ↦
            let same : medium_to_media row (list_variants_by_media id db) ≡ m = ground arith in
            subst (IsStored db id) same (
              select_one-IsFirst _ row db.media found,
              (rows, select-Without (λ (v : Variant). v.media_id == id) db.variants, refl),
            )
      ],
      λ s.
          let (first, (vs, own, listed)) = s in
          let sorted =
            λ (ws : List Variant). order_by (λ (v w : Variant). ltb v.created_at w.created_at) ws in
          let variants : m.variants ≡ list_variants_by_media id db =
            listed ∙ ap sorted (Without-select (λ (v : Variant). v.media_id == id) own) in
          rw (get, IsFirst-select_one _ (medium_of m) db.media first, ← variants) refl,
    )

get_media-calm :
    (id : Text) (m : Media) (w : World) (r : Errors.Result Media)
    → get id w.db ≡ r
    → ((get_media id (calm w)).0 ≡ ok m) ↔ ((get id w.db ≡ Errors.ok m) × (w.now ≤ m.expires_at))
unfolding get_media monad clock is_expired
get_media-calm id m w (Errors.ok n) found = elim (Bool-cases (is_expired n w.now)) [
  | inl late ↦ rw (found, ◌>>=◌, clock, late) (ground (arith, late))
  | inr current ↦ rw (found, ◌>>=◌, clock, current) (ground (arith, current))
]
get_media-calm id m w (Errors.err e) lost = rw lost (ground arith)

-- Where no call to the outside fails, `Get` returns exactly the media of the store that has not
-- expired: its row is the first that has the id, its variants are those of the id, the older ones first,
-- and the time is at most that of its expiry.
pub get_media_iff :
    (id : Text) (m : Media) (w : World)
    → w.outcomes ≡ []
    → ((get_media id w).0 ≡ ok m) ↔ (IsStored w.db id m × (w.now ≤ m.expires_at))
get_media_iff id m w h =
    let (there, back) =
      subst
        (λ os.
          ((get_media id (record w { outcomes = os })).0 ≡ ok m)
          ↔ ((get id w.db ≡ Errors.ok m) × (w.now ≤ m.expires_at)))
        (sym h) (get_media-calm id m w (get id w.db) refl) in
    let (stored, read) = get_iff id m w.db in
    (λ e. (stored (there e).0, (there e).1), λ s. back (read s.0, s.1))

then_remove :
    (p : Text) (k : M (Unit {0})) (w : World)
    → (remove_unless_empty p >> k) w ≡ k (record w { removed = w.removed ++ named (p ∷ []) })
unfolding monad
then_remove p k w = elim (Bool-cases (p == [])) [
  | inl blank ↦ rw (blank, ◌>>◌, append-nil w.removed) refl
  | inr there ↦ rw (there, ◌>>◌) refl
]

named-append : (ps qs : List Text) → named (ps ++ qs) ≡ named ps ++ named qs
named-append [] qs = refl
named-append (p ∷ ps) qs = elim (Bool-cases (p == [])) [
  | inl blank ↦ rw (blank, named-append ps qs) refl
  | inr there ↦ rw (there, named-append ps qs) refl
]

-- The files that `Delete` removes.
abbrev pub deleted_files : Media → List Text
deleted_files m =
    named (paths m.variants)
    ++ named (m.original_path ∷ [])
    ++ named (m.converted_path ∷ [])
    ++ named (m.thumb_path ∷ [])

remove_rest :
    (id a b c : Text) (w : World)
    → let one = λ (p : Text). named (p ∷ []) in
      (remove_unless_empty a
          >> (remove_unless_empty b >> (remove_unless_empty c >> store_delete id)))
        (calm w)
      ≡ (
        ok tt,
        record w {
          outcomes = [];
          db = (delete_media id w.db).1;
          removed = w.removed ++ one a ++ one b ++ one c;
        },
      )
remove_rest id a b c w =
    let one = λ (p : Text). named (p ∷ []) in
    let r = w.removed ++ one a in
    then_remove a _ (calm w)
    ∙ then_remove b _ (record w { outcomes = []; removed = r })
    ∙ then_remove c (store_delete id) (record w { outcomes = []; removed = r ++ one b })
    ∙ store_delete_lem id (record w { removed = r ++ one b ++ one c })

delete-calm :
    (id : Text) (m : Media) (w : World)
    → get id w.db ≡ Errors.ok m
    → delete id (calm w) ≡ (
      ok tt,
      record w {
        outcomes = [];
        db = (delete_media id w.db).1;
        removed = w.removed ++ deleted_files m;
      },
    )
unfolding delete monad
delete-calm id m w found =
    let v = named (paths m.variants) in
    let one = λ (p : Text). named (p ∷ []) in
    rw (found, remove_variants_lem m.variants (calm w))
      (remove_rest id m.original_path m.converted_path m.thumb_path
          (record w { removed = w.removed ++ v })
        ∙ rw
            (
              append_assoc w.removed v (one m.original_path),
              append_assoc w.removed (v ++ one m.original_path) (one m.converted_path),
              append_assoc w.removed (v ++ one m.original_path ++ one m.converted_path)
                  (one m.thumb_path),
            )
            refl)

-- The database without the rows, the variants and the jobs of an id.
pub record IsRid (id : Text) (before after : Db) : Type 0 where
  pub media : Without (λ (r : Medium). r.id == id) before.media after.media
  pub variants : Without (λ (v : Variant). v.media_id == id) before.variants after.variants
  pub jobs : Without (λ (j : Job). j.media_id == id) before.jobs after.jobs
  pub others :
      after ≡ record before { media = after.media; variants = after.variants; jobs = after.jobs }

-- Where no call to the outside fails and the store has the media, `Delete` succeeds: it deletes the
-- media, its variants and its jobs, and removes its files and those of its variants, where there is
-- a path; no other row is deleted or changed, and nothing else of the world.
pub delete-delete_media :
    (id : Text) (m : Media) (w : World)
    → w.outcomes ≡ []
    → get id w.db ≡ Errors.ok m
    → (db : Db) × IsRid id w.db db
      × (delete id w ≡ (ok tt, record w { db = db; removed = w.removed ++ deleted_files m }))
delete-delete_media id m w h found =
    let media = delete_where (λ (r : Medium). r.id == id) w.db.media in
    let variants = delete_where (λ (v : Variant). v.media_id == id) w.db.variants in
    let jobs = delete_where (λ (j : Job). j.media_id == id) w.db.jobs in
    let db = record w.db { media = media; variants = variants; jobs = jobs } in
    (
      db,
      record {
        media = delete_where-Without _ w.db.media;
        variants = delete_where-Without _ w.db.variants;
        jobs = delete_where-Without _ w.db.jobs;
        others = refl;
      },
      subst
          (λ os.
            delete id (record w { outcomes = os })
            ≡ (ok tt, record w { outcomes = os; db = db; removed = w.removed ++ deleted_files m }))
          (sym h)
          (delete-calm id m w found
            ∙ ap
                (λ d. (
                  ok tt,
                  record w { outcomes = []; db = d; removed = w.removed ++ deleted_files m },
                ))
                (delete_media-db id w.db)),
    )
