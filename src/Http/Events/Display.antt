-- ===== src/Http/Events/Display.antt =====
-- sse.go: the page of a client, which puts each fragment in its place.
use sharm.Common.{
  ◌≡◌, Bool, Option, none, some, List, [], ◌∷◌, ◌++◌, Text, text, ◌==◌, text_eq, if◌then◌else◌,
}
use sharm.Http.Exchange.{Write, print}
use sharm.Http.Events.{RenderedFragments}
use sharm.Http.Events.Client.{read_stream}

-- The page of a client: each event takes the place of the fragment that it names.
abbrev pub swap : RenderedFragments → Text × Text → RenderedFragments
swap page (name, html) =
    if name == text "status"
    then record page { status_html = html }
    else if name == text "row"
    then record page { row_html = html }
    else page

abbrev pub display : RenderedFragments → List (Text × Text) → RenderedFragments
display page [] = page
display page (event ∷ events) = display (swap page event) events

-- What is written on the body of an answer.
abbrev pub body : List Write → Text
body [] = []
body (print s ∷ ws) = s ++ body ws
body (w ∷ ws) = body ws

-- The page shows what was sent before, if anything was.
abbrev pub Shows : RenderedFragments → Option RenderedFragments → Type 0
Shows page none = Unit
Shows page (some previous) = page ≡ previous

abbrev fragment_events : Text → Text → Bool → List (Text × Text)
fragment_events name html changed = if changed then (name, html) ∷ [] else []

abbrev changes : Text → Text → Bool → Bool → List (Text × Text)
changes status row b c =
    fragment_events (text "status") status b ++ fragment_events (text "row") row c

-- What a page that shows what was sent before shows once it has read what is written now.
abbrev Updates : RenderedFragments → Option (RenderedFragments × List Write) → Type 0
Updates page none = Unit
Updates page (some (state, ws)) = display page (read_stream (body ws)) ≡ state
