-- ===== src/Http/Events.antt =====
-- internal/adapter/http/sse.go: the events of a media, as a stream to its page. What the templates
-- give is a parameter, none where rendering fails. The logs and the flushing are left out, and what
-- `select` picks is a list of signals; Subscribe and Unsubscribe around the loop are in EventBus.
pub mod Client
pub mod Display
mod Tests
use sharm.Common.{
  Bool, true, false, not, ◌||◌, Option, none, some, List, [], ◌∷◌, ◌++◌, Text, text, ◌==◌, text_eq,
  if◌then◌else◌,
}
use sharm.Golang.Split.{split}
use sharm.Domain.{Media, MediaStatus}
use sharm.Domain.Errors.{ok, err}
use sharm.Domain.Errors
use sharm.World.{World, Event}
use sharm.MediaService.{get_media}
use sharm.Http.Exchange.{
  Page, status_polling, status_failed, status_done, dashboard_row_content, Write, set_header,
  http_error, print, Exchange, Handler, writes, calling,
}
use sharm.Http.Media.{id_after}

pub record RenderedFragments : Type 0 where
  pub status_html : Text
  pub row_html : Text

-- A line for each part of the data.
unfoldable pub data_lines : List Text → Text
data_lines [] = []
data_lines (line ∷ lines) = text "data: " ++ (line ++ (b'\n' ∷ data_lines lines))

-- sseWrite: the text that it writes.
unfoldable pub sse_write : Text → Text → Text
unfolding data_lines
sse_write name data' =
    text "event: " ++ (name ++ (b'\n' ∷ (data_lines (split b'\n' data') ++ (b'\n' ∷ []))))

-- previous == nil || previous.field != html
unfoldable pub has_changed : (RenderedFragments → Text) → Option RenderedFragments → Text → Bool
has_changed field none html = true
has_changed field (some previous) html = not (field previous == html)

-- The event of a fragment, if it has changed.
unfoldable pub fragment_writes : Text → Text → Bool → List Write
unfolding sse_write
fragment_writes name html changed = if changed then print (sse_write name html) ∷ [] else []

-- What the loop waits for, with the world at the time.
pub data Signal : Type 0 where
  context_done channel_closed : Signal
  sent : Event → World → Signal

unfoldable pub is_final : MediaStatus → Bool
is_final MediaStatus.done = true
is_final MediaStatus.failed = true
is_final _ = false

unfoldable pub is_final_text : Text → Bool
is_final_text status = status == text "done" || status == text "failed"

abbrev stream_headers : List Write
stream_headers =
    set_header (text "Content-Type") (text "text/event-stream")
    ∷ set_header (text "Cache-Control") (text "no-cache")
    ∷ set_header (text "Connection") (text "keep-alive")
    ∷ set_header (text "X-Accel-Buffering") (text "no")
    ∷ []

-- What sendAllEvents returns, nil with an error, and what it writes: nothing before an error.
abbrev fragments_of : Option (RenderedFragments × List Write) → Option RenderedFragments
fragments_of none = none
fragments_of (some (state, ws)) = some state

abbrev writes_of : Option (RenderedFragments × List Write) → List Write
writes_of none = []
writes_of (some (state, ws)) = ws

module _ (domain : Text) (rendered : Page → Option Text) where
  unfoldable pub render_status_html : Media → MediaStatus → Option Text
  render_status_html media MediaStatus.done =
      rendered (status_done media (text "https://" ++ (domain ++ (text "/v/" ++ media.id))))
  render_status_html media MediaStatus.failed = rendered (status_failed media.error_message)
  render_status_html media _ = rendered (status_polling media.id)

  unfoldable pub render_row_html : Media → Option Text
  render_row_html media = rendered (dashboard_row_content media domain)

  unfoldable pub send_fragments :
      Option RenderedFragments → Option Text → Option Text → Option (RenderedFragments × List Write)
  unfolding has_changed fragment_writes
  send_fragments previous none row = none
  send_fragments previous (some status_html) none = none
  send_fragments previous (some status_html) (some row_html) = some (
    record { status_html = status_html; row_html = row_html },
    fragment_writes (text "status") status_html
          (has_changed (λ p. p.status_html) previous status_html)
        ++ fragment_writes (text "row") row_html (has_changed (λ p. p.row_html) previous row_html),
  )

  unfoldable pub send_all_events :
      Media → Option RenderedFragments → Option (RenderedFragments × List Write)
  unfolding render_status_html render_row_html send_fragments
  send_all_events media previous =
      send_fragments previous (render_status_html media media.status) (render_row_html media)

  -- An event of the channel, and how the loop goes on after it.
  unfoldable pub on_event :
      Event
      → Option RenderedFragments
      → (Option RenderedFragments → Exchange → Exchange)
      → Errors.Result Media
      → Exchange
      → Exchange
  unfolding send_all_events is_final_text
  on_event event state next (err e) x = x
  on_event event state next (ok media) x =
      let result = send_all_events media state in
      let y = writes (writes_of result) x in
      if is_final_text event.status then y else next (fragments_of result) y

  -- The loop, as far as there have been signals.
  unfoldable pub listen : Text → Option RenderedFragments → List Signal → Exchange → Exchange
  unfolding on_event
  listen id state [] x = x
  listen id state (context_done ∷ signals) x = x
  listen id state (channel_closed ∷ signals) x = x
  listen id state (sent event world ∷ signals) x =
      calling (get_media id) (on_event event state (λ s. listen id s signals))
        (record x { world = world })

  -- The first events, and those of the loop where the media is not at its end.
  unfoldable pub start_stream :
      Text → List Signal → Bool → Option (RenderedFragments × List Write) → Exchange → Exchange
  unfolding listen
  start_stream id signals at_end none x = x
  start_stream id signals at_end (some (state, ws)) x =
      let y = writes ws x in if at_end then y else listen id (some state) signals y

  unfoldable pub stream_of : Text → List Signal → Errors.Result Media → Exchange → Exchange
  unfolding start_stream send_all_events is_final
  stream_of id signals (err e) x = writes (http_error (text "Media not found") 404 ∷ []) x
  stream_of id signals (ok media) x =
      start_stream id signals (is_final media.status) (send_all_events media none)
        (writes stream_headers x)

  unfoldable pub events_handler : List Signal → Handler
  unfolding stream_of id_after
  events_handler signals r =
      let id = id_after (text "/events/") r in
      if id == []
      then writes (http_error (text "Missing media ID") 400 ∷ [])
      else calling (get_media id) (stream_of id signals)
