-- ===== src/Http/Media.antt =====
-- internal/adapter/http/handler.go: the share page and the files of a media, which anyone may see.
-- The logs are left out.
pub mod Public
pub mod Routes
pub mod Tests
use sharm.Common.{
  ℕ, ◌≡◌, Bool, true, false, not, ◌||◌, Option, none, some, List, [], ◌∷◌, ◌++◌, Text, text, ◌==◌,
  text_eq, if◌then◌else◌,
}
use sharm.Golang.Strings.{trim_prefix, trim_suffix, to_lower, cut}
use sharm.Golang.FilePath.{ext}
use sharm.Domain.{Media, MediaType, MediaStatus, Variant, Codec, av1, h264, opus}
use sharm.Domain.Errors.{ok, err}
use sharm.Domain.Errors
use sharm.Domain.Probe.{ProbeResult}
use sharm.Domain.Variants.{is_done, variant_by_codec}
use sharm.Domain.Accept.{Floats, best_variant_for_accept}
use sharm.MediaService.{get_media, delete}
use sharm.Http.MediaTypes.{
  detect_original_mime_type, detect_mime_type, codec_mime_type, variant_filename,
}
use sharm.Http.Validation.Filename.{content_disposition}
use sharm.Http.Exchange.{
  Request, Page, error_inline, error_page, share, status_polling, status_failed, status_done,
  status_page, media_info_dialog, Write, set_header, write_header, render, http_error, redirect,
  serve_file, Exchange, Handler, writes, calling,
}

-- The settings of the handlers, and what they take from outside: strconv.Quote, floating point, and
-- the JSON of a probe, which may not parse.
pub record Serving : Type 1 where
  pub domain : Text
  pub version : Text
  pub quote : Text → Text
  pub floats : Floats
  pub parse_probe : Text → Option ProbeResult

abbrev pub html : Write
html = set_header (text "Content-Type") (text "text/html; charset=utf-8")

abbrev pub not_found : Write
not_found = http_error (text "Media not found") 404

-- strings.TrimSuffix(strings.TrimPrefix(r.URL.Path, prefix), "/")
unfoldable pub id_after : Text → Request → Text
id_after prefix r = trim_suffix (trim_prefix r.path prefix) (text "/")

-- ServeRaw: the file of the media itself.
unfoldable pub raw_path : Media → Text
raw_path media = if media.converted_path == [] then media.original_path else media.converted_path

module _ (serving : Serving) where
  open serving use {domain, version, quote, floats, parse_probe}

  -- The headers of a file, and the file.
  unfoldable pub send_file : Text → Text → Text → List Write
  send_file mime name path =
      set_header (text "Content-Type") mime
      ∷ set_header (text "Content-Disposition") (content_disposition quote name true)
      ∷ serve_file path
      ∷ []

  -- ServeOriginal
  unfoldable pub original_of : Errors.Result Media → Exchange → Exchange
  original_of (err e) = writes (not_found ∷ [])
  original_of (ok media) =
      if media.original_path == []
      then writes (http_error (text "Original not available") 404 ∷ [])
      else writes
          (send_file (detect_original_mime_type media) media.original_name media.original_path)

  unfoldable pub serve_original : Text → Handler
  unfolding original_of
  serve_original id r = calling (get_media id) original_of

  -- ServeVariant
  abbrev unavailable : Exchange → Exchange
  unavailable = writes (http_error (text "Variant not available") 404 ∷ [])

  unfoldable pub variant_of : Codec → Media → Option Variant → Exchange → Exchange
  variant_of codec media none = unavailable
  variant_of codec media (some v) =
      if not (is_done v.status) || v.path == []
      then unavailable
      else writes (
          send_file (codec_mime_type codec media.type) (variant_filename media.original_name codec)
            v.path)

  unfoldable pub found_variant : Codec → Errors.Result Media → Exchange → Exchange
  unfolding variant_of
  found_variant codec (err e) = writes (not_found ∷ [])
  found_variant codec (ok media) = variant_of codec media (variant_by_codec media codec)

  unfoldable pub serve_variant : Text → Codec → Handler
  unfolding found_variant
  serve_variant id codec r = calling (get_media id) (found_variant codec)

  -- ServeRaw, where no variant is sent, and where the client accepts one.
  unfoldable pub fall_back : Media → Exchange → Exchange
  unfolding raw_path
  fall_back media =
      let path = raw_path media in
      if path == []
      then writes (http_error (text "Media not ready") 503 ∷ [])
      else writes (send_file (detect_mime_type media) media.original_name path)

  unfoldable pub raw_of : Media → Option Variant → Exchange → Exchange
  unfolding fall_back
  raw_of media none = fall_back media
  raw_of media (some v) =
      if v.path == []
      then fall_back media
      else writes (send_file (codec_mime_type v.codec media.type) media.original_name v.path)

  unfoldable pub found_raw : Request → Errors.Result Media → Exchange → Exchange
  unfolding raw_of
  found_raw r (err e) = writes (not_found ∷ [])
  found_raw r (ok media) =
      raw_of media (best_variant_for_accept floats media (r.header (text "Accept")))

  unfoldable pub serve_raw : Handler
  unfolding found_raw
  serve_raw r =
      let id = trim_suffix (trim_prefix r.path (text "/v/")) (text "/raw") in
      let id' = trim_suffix (trim_suffix id (text "/raw.mp4")) (text "/") in
      calling (get_media id') (found_raw r)

  -- ServeThumb
  unfoldable pub thumb_of : Errors.Result Media → Exchange → Exchange
  thumb_of (err e) = writes (not_found ∷ [])
  thumb_of (ok media) =
      if media.thumb_path == []
      then writes (http_error (text "Thumbnail not available") 404 ∷ [])
      else writes
          (set_header (text "Content-Type") (text "image/jpeg") ∷ serve_file media.thumb_path ∷ [])

  unfoldable pub serve_thumb : Handler
  unfolding thumb_of
  serve_thumb r =
      let id =
        trim_suffix (trim_suffix (trim_prefix r.path (text "/v/")) (text "/thumb")) (text "/") in
      calling (get_media id) thumb_of

  -- SharePage
  unfoldable pub shared : Errors.Result Media → Exchange → Exchange
  shared (err e) = writes (
      html
      ∷ write_header 404
      ∷ render (error_page (text "404") (text "Media not found") version)
      ∷ [])
  shared (ok media) = writes (html ∷ render (share media domain) ∷ [])

  unfoldable pub share_page : Handler
  unfolding shared id_after
  share_page r = calling (get_media (id_after (text "/v/") r)) shared

  -- Media, by the first part of the path and what follows it.
  unfoldable pub media_by_suffix : Text → Text → Handler
  unfolding serve_raw serve_thumb serve_original serve_variant share_page
  media_by_suffix id suffix =
      if suffix == text "raw" || suffix == text "raw.mp4"
      then serve_raw
      else if suffix == text "thumb"
      then serve_thumb
      else if suffix == text "original"
      then serve_original id
      else if suffix == text "av1"
      then serve_variant id av1
      else if suffix == text "h264"
      then serve_variant id h264
      else if suffix == text "opus"
      then serve_variant id opus
      else share_page

  -- strings.SplitN(trimmed, "/", 2)
  unfoldable pub media_by_parts : Text → Option (Text × Text) → Handler
  unfolding media_by_suffix
  media_by_parts trimmed none = media_by_suffix trimmed []
  media_by_parts trimmed (some (id, suffix)) = media_by_suffix id suffix

  unfoldable pub media_handler : Handler
  unfolding media_by_parts
  media_handler r =
      let trimmed = trim_prefix r.path (text "/v/") in media_by_parts trimmed (cut b'/' trimmed) r
