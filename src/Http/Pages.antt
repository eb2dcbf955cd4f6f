-- ===== src/Http/Pages.antt =====
-- handler.go: the status and the details of a media, and its removal, for those who have logged in.
use sharm.Common.{Bool, true, false, none, [], ◌∷◌, ◌++◌, text, ◌==◌, text_eq, if◌then◌else◌}
use sharm.Golang.Strings.{trim_prefix, trim_suffix}
use sharm.Domain.{Media, MediaStatus}
use sharm.Domain.Errors.{ok, err}
use sharm.Domain.Errors
use sharm.MediaService.{get_media, delete}
use sharm.Http.Exchange.{
  Page, error_inline, error_page, status_polling, status_failed, status_done, status_page,
  media_info_dialog, write_header, render, http_error, redirect, Exchange, Handler, writes, calling,
}
use sharm.Http.Media.{Serving, html, id_after}

module _ (serving : Serving) where
  open serving use {domain, version, parse_probe}

  -- StatusPage
  unfoldable pub status_fragment : Media → MediaStatus → Page
  status_fragment media MediaStatus.pending = status_polling media.id
  status_fragment media MediaStatus.processing = status_polling media.id
  status_fragment media MediaStatus.done =
      status_done media (text "https://" ++ (domain ++ (text "/v/" ++ media.id)))
  status_fragment media MediaStatus.failed = status_failed media.error_message

  abbrev is_ready : MediaStatus → Bool
  is_ready MediaStatus.done = true
  is_ready _ = false

  unfoldable pub status_of : Bool → Errors.Result Media → Exchange → Exchange
  unfolding status_fragment
  status_of htmx (err e) = writes (
      html
      ∷ write_header 404
      ∷ render (
          if htmx
          then error_inline (text "Media not found")
          else error_page (text "404") (text "Media not found") version)
      ∷ [])
  status_of htmx (ok media) =
      if htmx
      then writes (html ∷ render (status_fragment media media.status) ∷ [])
      else if is_ready media.status
      then writes (html ∷ redirect (text "/v/" ++ media.id) 303 ∷ [])
      else writes (html ∷ render (status_page media.id version) ∷ [])

  unfoldable pub status_page_handler : Handler
  unfolding status_of id_after
  status_page_handler r =
      calling (get_media (id_after (text "/status/") r))
        (status_of (r.header (text "HX-Request") == text "true"))

  -- DeleteMedia
  unfoldable pub deleted : Errors.Result (Unit {0}) → Exchange → Exchange
  deleted (err e) = writes (http_error (text "Delete failed") 500 ∷ [])
  deleted (ok done) = writes (write_header 200 ∷ [])

  unfoldable pub delete_media_handler : Handler
  unfolding deleted id_after
  delete_media_handler r = calling (delete (id_after (text "/media/") r)) deleted

  -- MediaInfo
  unfoldable pub info_of : Errors.Result Media → Exchange → Exchange
  info_of (err e) =
      writes (html ∷ write_header 404 ∷ render (error_inline (text "Media not found")) ∷ [])
  info_of (ok media) =
      let probe = if media.probe_json == [] then none else parse_probe media.probe_json in
      writes (html ∷ render (media_info_dialog media probe) ∷ [])

  unfoldable pub media_info : Handler
  unfolding info_of
  media_info r =
      let id =
        trim_suffix (trim_suffix (trim_prefix r.path (text "/media/")) (text "/info")) (text "/") in
      calling (get_media id) info_of
