-- ===== src/Http/Media/Routes.antt =====
-- handler.go: what the public route of a media sends.
use sharm.Common.{
  ◌≡◌, refl, ap, ◌∙◌, subst, ◌⊎◌, inl, inr, Bool, true, false, ◌||◌, Option, none, some, List, [],
  ◌∷◌, ◌++◌, Text, text, ◌==◌, text_eq, if◌then◌else◌, Bool-cases, Option-cases,
}
use sharm.Golang.Strings.{trim_prefix, cut}
use sharm.Domain.{Media, av1, h264, opus}
use sharm.Domain.Errors.{Result-cases, expired}
use sharm.Domain.Errors
use sharm.Domain.Variants.{is_expired}
use sharm.Store.Media.{get}
use sharm.MediaService.{get_media}
use sharm.World.{World, Outcome, ok, err, panic, ◌>>=◌, call, clock, next_outcome, monad}
use sharm.Http.Exchange.{Request, Write, aborted, Exchange, Handler, after, calling, writes}
use sharm.Http.Media.{
  Serving, original_of, found_variant, found_raw, thumb_of, shared, serve_original, serve_variant,
  serve_raw, serve_thumb, share_page, media_by_suffix, media_by_parts, media_handler,
}
use sharm.Http.Media.Public.{
  AreFilesOf, AreNoFiles, Sends, original_of-Sends, found_variant-Sends, found_raw-Sends,
  thumb_of-Sends, shared-Sends,
}

-- Whatever the outcomes, what Get returns is in the store and has not expired.
get_media-ok :
    (id : Text) (m : Media) (w : World)
    → (get_media id w).0 ≡ ok m
    → (get id w.db ≡ Errors.ok m) × (is_expired m w.now ≡ false)
unfolding get_media monad
get_media-ok id m w h = elim (Option-cases (next_outcome w.outcomes)) [
  | inr (e, down) ↦
      let failed : (get_media id w).0 ≡ err (Errors.outside e) = rw (◌>>=◌, call, down) refl in
      absurd (cc (h, failed))
  | inl up ↦ elim (Result-cases (get id w.db)) [
    | inr (e, lost) ↦
        let failed : (get_media id w).0 ≡ err e = rw (◌>>=◌, call, up, lost) refl in
        absurd (cc (h, failed))
    | inl (n, found) ↦ elim (Bool-cases (is_expired n w.now)) [
      | inl late ↦
          let failed : (get_media id w).0 ≡ err expired =
            rw (◌>>=◌, call, up, found, clock, late) refl in
          absurd (cc (h, failed))
      | inr current ↦
          let got : (get_media id w).0 ≡ ok n = rw (◌>>=◌, call, up, found, clock, current) refl in
          let same : n ≡ m = cc (h, got) in
          (found ∙ ap (λ k. Errors.ok k) same, subst (λ k. is_expired k w.now ≡ false) same current)
    ]
  ]
]

-- The writes that a handler adds hold no file, or only files of a media of the store that has not
-- expired.
abbrev pub SendsFilesOf : Exchange → Exchange → Type 0
SendsFilesOf x y =
    (ws : List Write) × (y.written ≡ x.written ++ ws)
    × (AreNoFiles ws
        ⊎ ((id : Text) × (m : Media) × (get id x.world.db ≡ Errors.ok m)
            × (is_expired m x.world.now ≡ false)
            × AreFilesOf m ws))

after-SendsFilesOf :
    (k : Errors.Result Media → Exchange → Exchange)
    → Sends k
    → (id : Text) (x : Exchange) (p : Outcome Media × World)
    → ((m : Media)
        → p.0 ≡ ok m
        → (get id x.world.db ≡ Errors.ok m) × (is_expired m x.world.now ≡ false))
    → SendsFilesOf x (after x p k)
unfolding writes
after-SendsFilesOf k sends id x (ok m, w) h =
    let (ws, e, f) = sends (Errors.ok m) (record x { world = w }) in
    let (found, current) = h m refl in
    (ws, ap (λ (y : Exchange). y.written) e, inr (id, m, found, current, f))
after-SendsFilesOf k sends id x (err e, w) h =
    let (ws, same, f) = sends (Errors.err e) (record x { world = w }) in
    (ws, ap (λ (y : Exchange). y.written) same, inl f)
after-SendsFilesOf k sends id x (panic, w) h = (aborted ∷ [], refl, inl tt)

calling-SendsFilesOf :
    (k : Errors.Result Media → Exchange → Exchange)
    → Sends k
    → (id : Text) (x : Exchange) → SendsFilesOf x (calling (get_media id) k x)
unfolding calling
calling-SendsFilesOf k sends id x =
    after-SendsFilesOf k sends id x (get_media id x.world) (λ m h. get_media-ok id m x.world h)

either :
    (x : Exchange) (r : Request) (b : Bool) (f g : Handler)
    → SendsFilesOf x (f r x)
    → SendsFilesOf x (g r x)
    → SendsFilesOf x ((if b then f else g) r x)
either x r true f g h k = h
either x r false f g h k = k

module _ (serving : Serving) (r : Request) (x : Exchange) where
  serve_raw-SendsFilesOf : SendsFilesOf x (serve_raw serving r x)
  unfolding serve_raw
  serve_raw-SendsFilesOf =
      calling-SendsFilesOf (found_raw serving r) (found_raw-Sends serving r) _ x

  serve_thumb-SendsFilesOf : SendsFilesOf x (serve_thumb serving r x)
  unfolding serve_thumb
  serve_thumb-SendsFilesOf = calling-SendsFilesOf (thumb_of serving) (thumb_of-Sends serving) _ x

  share_page-SendsFilesOf : SendsFilesOf x (share_page serving r x)
  unfolding share_page
  share_page-SendsFilesOf = calling-SendsFilesOf (shared serving) (shared-Sends serving) _ x

  serve_original-SendsFilesOf : (id : Text) → SendsFilesOf x (serve_original serving id r x)
  unfolding serve_original
  serve_original-SendsFilesOf id =
      calling-SendsFilesOf (original_of serving) (original_of-Sends serving) id x

  serve_variant-SendsFilesOf :
      (id : Text) (codec : Text) → SendsFilesOf x (serve_variant serving id codec r x)
  unfolding serve_variant
  serve_variant-SendsFilesOf id codec =
      calling-SendsFilesOf (found_variant serving codec) (found_variant-Sends serving codec) id x

  media_by_suffix-SendsFilesOf :
      (id suffix : Text) → SendsFilesOf x (media_by_suffix serving id suffix r x)
  unfolding media_by_suffix
  media_by_suffix-SendsFilesOf id suffix =
      either x r (suffix == text "raw" || suffix == text "raw.mp4") _ _ serve_raw-SendsFilesOf (
        either x r (suffix == text "thumb") _ _ serve_thumb-SendsFilesOf (
          either x r (suffix == text "original") _ _ (serve_original-SendsFilesOf id) (
            either x r (suffix == text "av1") _ _ (serve_variant-SendsFilesOf id av1) (
              either x r (suffix == text "h264") _ _ (serve_variant-SendsFilesOf id h264) (
                either x r (suffix == text "opus") _ _ (serve_variant-SendsFilesOf id opus)
                  share_page-SendsFilesOf)))))

  media_by_parts-SendsFilesOf :
      (trimmed : Text) (parts : Option (Text × Text))
      → SendsFilesOf x (media_by_parts serving trimmed parts r x)
  unfolding media_by_parts
  media_by_parts-SendsFilesOf trimmed none = media_by_suffix-SendsFilesOf trimmed []
  media_by_parts-SendsFilesOf trimmed (some (id, suffix)) = media_by_suffix-SendsFilesOf id suffix

  -- However the calls to the outside end, and whatever the path: if the public route of a media sends
  -- a file, it is one of a media that is in the store and has not expired, and if it is that of a
  -- variant, the variant is one of this media that is done.
  pub media_handler-SendsFilesOf : SendsFilesOf x (media_handler serving r x)
  unfolding media_handler
  media_handler-SendsFilesOf =
      let trimmed = trim_prefix r.path (text "/v/") in
      media_by_parts-SendsFilesOf trimmed (cut b'/' trimmed)
