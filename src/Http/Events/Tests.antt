-- ===== src/Http/Events/Tests.antt =====
-- Templates that give text at once, and an example for the property.
use sharm.Common.{some, List, [], ◌∷◌, ◌++◌, Option, Text, text, text_eq}
use sharm.Http.Exchange.{Page, status_polling, Write, print}
use sharm.Http.Events.{RenderedFragments}

abbrev rendered : Page → Option Text
rendered (status_polling id) = some (text "one\n" ++ id)
rendered page = some (text "row")

abbrev before : RenderedFragments
before = record { status_html = text "old"; row_html = text "row" }

abbrev after : RenderedFragments
after = record { status_html = text "one\nA"; row_html = text "row" }

abbrev written : List Write
written = print (text "event: status\ndata: one\ndata: A\n\n") ∷ []
