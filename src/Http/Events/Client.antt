-- ===== src/Http/Events/Client.antt =====
-- sse.go: what a client of the stream, which reads it by lines, makes of it.
use sharm.Common.{
  ◌≡◌, refl, sym, ap, ◌∙◌, false, text_eq, Option, none, some, List, [], ◌∷◌, ◌++◌, Text, text,
  ◌==◌, nat_eq, if◌then◌else◌, All, map,
}
use mathlib.Core.List.{append_assoc, append-nil}
use sharm.Golang.Split.{split, split-cons, split-free, holds, joined, joined-split, split-append}
use sharm.Http.Events.{data_lines, sse_write}

-- The text after a prefix.
abbrev pub after_prefix : Text → Text → Option Text
after_prefix [] s = some s
after_prefix (p ∷ prefix) [] = none
after_prefix (p ∷ prefix) (c ∷ s) =
    let rest = after_prefix prefix s in if c == p then rest else none

-- The events of some lines, after the name and the data of the one that has begun: an empty line
-- ends an event, the lines of its data are put together by newlines, and without any data there is
-- no event.
abbrev pub received : Text → List Text → List Text → List (Text × Text)
received name lines [] = []
received name [] ([] ∷ rest) = received [] [] rest
received name (line ∷ lines) ([] ∷ rest) = (name, joined b'\n' (line ∷ lines)) ∷ received [] [] rest
received name lines ((c ∷ l) ∷ rest) = elim (after_prefix (text "event: ") (c ∷ l)) [
  | some new ↦ received new lines rest
  | none ↦ elim (after_prefix (text "data: ") (c ∷ l)) [
    | some line ↦ received name (lines ++ (line ∷ [])) rest
    | none ↦ received name lines rest
  ]
]

unfoldable pub read_stream : Text → List (Text × Text)
read_stream s = received [] [] (split b'\n' s)

-- Some events, written one after the other.
unfoldable pub stream : List (Text × Text) → Text
stream [] = []
stream (event ∷ events) = sse_write event.0 event.1 ++ stream events

split-data_lines :
    (lines : List Text) (rest : Text)
    → All (λ l. holds b'\n' l ≡ false) lines
    → split b'\n' (data_lines lines ++ rest)
      ≡ map (λ l. text "data: " ++ l) lines ++ split b'\n' rest
unfolding data_lines
split-data_lines [] rest h = refl
split-data_lines (l ∷ lines) rest h =
    ap (split b'\n') (ap (λ t. text "data: " ++ t) (append_assoc l (b'\n' ∷ data_lines lines) rest))
    ∙ split-append b'\n' (text "data: " ++ l) (data_lines lines ++ rest) h.0
    ∙ ap (λ ls. (text "data: " ++ l) ∷ ls) (split-data_lines lines rest h.1)

received-data :
    (name : Text) (before lines rest : List Text)
    → received name before (map (λ l. text "data: " ++ l) lines ++ rest)
      ≡ received name (before ++ lines) rest
received-data name before [] rest = rw (append-nil before) refl
received-data name before (l ∷ lines) rest =
    received-data name (before ++ (l ∷ [])) lines rest
    ∙ rw (append_assoc before (l ∷ []) lines) refl

received-end :
    (name data' : Text) (rest : List Text)
    → received name (split b'\n' data') ([] ∷ rest) ≡ (name, data') ∷ received [] [] rest
received-end name data' rest =
    let (e, es, parts) = split-cons b'\n' data' in
    rw parts (
      ap (λ d. (name, d) ∷ received [] [] rest)
        (ap (joined b'\n') (sym parts) ∙ joined-split b'\n' data'))

received-sse_write :
    (name data' rest : Text)
    → holds b'\n' name ≡ false
    → received [] [] (split b'\n' (sse_write name data' ++ rest))
      ≡ (name, data') ∷ received [] [] (split b'\n' rest)
unfolding sse_write
received-sse_write name data' rest h =
    let lines = split b'\n' data' in
    ap (λ t. received [] [] (split b'\n' (text "event: " ++ t)))
      (append_assoc name (b'\n' ∷ (data_lines lines ++ (b'\n' ∷ []))) rest
        ∙ ap (λ t. name ++ (b'\n' ∷ t)) (append_assoc (data_lines lines) (b'\n' ∷ []) rest))
    ∙ ap (received [] []) (
        split-append b'\n' (text "event: " ++ name) (data_lines lines ++ (b'\n' ∷ rest)) h
        ∙ ap (λ ls. (text "event: " ++ name) ∷ ls)
            (split-data_lines lines (b'\n' ∷ rest) (split-free b'\n' data')
              ∙ ap (λ ls. map (λ l. text "data: " ++ l) lines ++ ls)
                  (split-append b'\n' [] rest refl)))
    ∙ received-data name [] lines ([] ∷ split b'\n' rest)
    ∙ received-end name data' (split b'\n' rest)

-- If no name holds a newline, the events are read as they were written.
pub read_stream-stream :
    (events : List (Text × Text))
    → All (λ e. holds b'\n' e.0 ≡ false) events
    → read_stream (stream events) ≡ events
unfolding read_stream stream split
read_stream-stream [] h = refl
read_stream-stream (event ∷ events) h =
    received-sse_write event.0 event.1 (stream events) h.0
    ∙ ap (λ es. event ∷ es) (read_stream-stream events h.1)
