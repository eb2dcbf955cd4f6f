-- ===== src/Http/Media/Public.antt =====
-- handler.go: which files the public routes send.
use sharm.Common.{
  sym, ◌∙◌, ◌≡◌, refl, inl, inr, true, Option, none, some, List, [], ◌∷◌, Text, text, ◌==◌, text_eq,
  Bool-cases,
}
use sharm.Domain.{Media, Variant, Codec}
use sharm.Domain.Errors
use sharm.Domain.Variants.{is_done, variant_by_codec, by_codec}
use sharm.Domain.Accept.{best_variant_for_accept}
use sharm.Domain.Negotiation.{IsDoneOf, best_variant_for_accept-IsDoneOf}
use sharm.Http.Exchange.{
  Request, share, error_page, Write, set_header, write_header, render, http_error, serve_file,
  Exchange, writes,
}
use sharm.Http.MediaTypes.{
  detect_original_mime_type, detect_mime_type, codec_mime_type, variant_filename,
}
use sharm.Http.Media.{
  html, not_found, Serving, original_of, variant_of, found_variant, raw_path, fall_back, raw_of,
  found_raw, thumb_of, shared, send_file,
}

-- A file of a media: the upload, the one it was converted to, its picture, or that of a variant
-- that is done.
pub data IsFileOf (m : Media) (path : Text) : Type 0 where
  the_original : path ≡ m.original_path → IsFileOf m path
  the_converted : path ≡ m.converted_path → IsFileOf m path
  the_thumb : path ≡ m.thumb_path → IsFileOf m path
  a_variant : (v : Variant) → IsDoneOf v m.variants → path ≡ v.path → IsFileOf m path

-- Every file among the writes is one of a media; there is none.
abbrev pub AreFilesOf : Media → List Write → Type 0
AreFilesOf m [] = Unit
AreFilesOf m (serve_file path ∷ ws) = IsFileOf m path × AreFilesOf m ws
AreFilesOf m (w ∷ ws) = AreFilesOf m ws

abbrev pub AreNoFiles : List Write → Type 0
AreNoFiles [] = Unit
AreNoFiles (serve_file path ∷ ws) = ⊥
AreNoFiles (w ∷ ws) = AreNoFiles ws

abbrev pub AreFit : Errors.Result Media → List Write → Type 0
AreFit (Errors.ok m) ws = AreFilesOf m ws
AreFit (Errors.err e) ws = AreNoFiles ws

-- What a handler writes once it has its media, or an error.
abbrev pub Sends : (Errors.Result Media → Exchange → Exchange) → Type 0
Sends k =
    (res : Errors.Result Media) (x : Exchange)
    → (ws : List Write) × (k res x ≡ writes ws x) × AreFit res ws

by_codec-IsDoneOf :
    (codec : Codec) (vs : List Variant) (v : Variant)
    → by_codec codec vs ≡ some v
    → is_done v.status ≡ true
    → IsDoneOf v vs
unfolding by_codec
by_codec-IsDoneOf codec [] v h done = absurd (cc h)
by_codec-IsDoneOf codec (w ∷ vs) v h done = elim (Bool-cases (w.codec == codec)) [
  | inl hit ↦
      let first : by_codec codec (w ∷ vs) ≡ some w = rw hit refl in inl (cc (h, first), done)
  | inr miss ↦
      let rest : by_codec codec (w ∷ vs) ≡ by_codec codec vs = rw miss refl in
      inr (by_codec-IsDoneOf codec vs v (sym rest ∙ h) done)
]

module _ (serving : Serving) where
  open serving use {floats}

  abbrev file_of : Text → Text → Text → List Write
  file_of mime name path = send_file serving mime name path

  pub original_of-Sends : Sends (original_of serving)
  unfolding original_of send_file
  original_of-Sends (Errors.err e) x = (not_found ∷ [], refl, tt)
  original_of-Sends (Errors.ok m) x = elim (Bool-cases (m.original_path == [])) [
    | inl blank ↦ (http_error (text "Original not available") 404 ∷ [], rw blank refl, tt)
    | inr there ↦ (
      file_of (detect_original_mime_type m) m.original_name m.original_path,
      rw there refl,
      (the_original refl, tt),
    )
  ]

  variant_of-sends :
      (codec : Codec) (m : Media) (o : Option Variant) (x : Exchange)
      → variant_by_codec m codec ≡ o
      → (ws : List Write) × (variant_of serving codec m o x ≡ writes ws x) × AreFilesOf m ws
  unfolding variant_of send_file variant_by_codec
  variant_of-sends codec m none x h = (http_error (text "Variant not available") 404 ∷ [], refl, tt)
  variant_of-sends codec m (some v) x h = elim (Bool-cases (is_done v.status)) [
    | inr undone ↦ (http_error (text "Variant not available") 404 ∷ [], rw undone refl, tt)
    | inl done ↦ elim (Bool-cases (v.path == [])) [
      | inl blank ↦ (http_error (text "Variant not available") 404 ∷ [], rw (done, blank) refl, tt)
      | inr there ↦ (
        file_of (codec_mime_type codec m.type) (variant_filename m.original_name codec) v.path,
        rw (done, there) refl,
        (a_variant v (by_codec-IsDoneOf codec m.variants v h done) refl, tt),
      )
    ]
  ]

  pub found_variant-Sends : (codec : Codec) → Sends (found_variant serving codec)
  unfolding found_variant
  found_variant-Sends codec (Errors.err e) x = (not_found ∷ [], refl, tt)
  found_variant-Sends codec (Errors.ok m) x =
      variant_of-sends codec m (variant_by_codec m codec) x refl

  raw_path-IsFileOf : (m : Media) → IsFileOf m (raw_path m)
  unfolding raw_path
  raw_path-IsFileOf m = elim (Bool-cases (m.converted_path == [])) [
    | inl blank ↦ the_original (rw blank refl)
    | inr there ↦ the_converted (rw there refl)
  ]

  fall_back-sends :
      (m : Media) (x : Exchange)
      → (ws : List Write) × (fall_back serving m x ≡ writes ws x) × AreFilesOf m ws
  unfolding fall_back send_file
  fall_back-sends m x = elim (Bool-cases (raw_path m == [])) [
    | inl blank ↦ (http_error (text "Media not ready") 503 ∷ [], rw blank refl, tt)
    | inr there ↦ (
      file_of (detect_mime_type m) m.original_name (raw_path m),
      rw there refl,
      (raw_path-IsFileOf m, tt),
    )
  ]

  raw_of-sends :
      (m : Media) (o : Option Variant) (x : Exchange)
      → ((v : Variant) → o ≡ some v → IsDoneOf v m.variants)
      → (ws : List Write) × (raw_of serving m o x ≡ writes ws x) × AreFilesOf m ws
  unfolding raw_of send_file
  raw_of-sends m none x h = fall_back-sends m x
  raw_of-sends m (some v) x h = elim (Bool-cases (v.path == [])) [
    | inl blank ↦ let (ws, e, f) = fall_back-sends m x in (ws, rw blank e, f)
    | inr there ↦ (
      file_of (codec_mime_type v.codec m.type) m.original_name v.path,
      rw there refl,
      (a_variant v (h v refl) refl, tt),
    )
  ]

  pub found_raw-Sends : (r : Request) → Sends (found_raw serving r)
  unfolding found_raw
  found_raw-Sends r (Errors.err e) x = (not_found ∷ [], refl, tt)
  found_raw-Sends r (Errors.ok m) x =
      let accept = r.header (text "Accept") in
      raw_of-sends m (best_variant_for_accept floats m accept) x
        (best_variant_for_accept-IsDoneOf floats m accept).0

  pub thumb_of-Sends : Sends (thumb_of serving)
  unfolding thumb_of
  thumb_of-Sends (Errors.err e) x = (not_found ∷ [], refl, tt)
  thumb_of-Sends (Errors.ok m) x = elim (Bool-cases (m.thumb_path == [])) [
    | inl blank ↦ (http_error (text "Thumbnail not available") 404 ∷ [], rw blank refl, tt)
    | inr there ↦ (
      set_header (text "Content-Type") (text "image/jpeg") ∷ serve_file m.thumb_path ∷ [],
      rw there refl,
      (the_thumb refl, tt),
    )
  ]

  pub shared-Sends : Sends (shared serving)
  unfolding shared
  shared-Sends (Errors.err e) x = (
    html
        ∷ write_header 404
        ∷ render (error_page (text "404") (text "Media not found") serving.version)
        ∷ [],
    refl,
    tt,
  )
  shared-Sends (Errors.ok m) x = (html ∷ render (share m serving.domain) ∷ [], refl, tt)
