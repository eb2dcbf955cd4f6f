-- ===== src/Http/Chunks.antt =====
-- handler.go: an upload in chunks. The multipart forms that net/http reads, and the service's Upload,
-- are arguments; the logs are left out.
pub mod Complete
pub mod Assembly
mod Tests
use sharm.Common.{
  ℕ, zero, suc, ◌+◌, ◌≡◌, ℤ, pos, negsuc, Bool, true, false, not, ◌||◌, ◌&&◌, Option, none, some,
  List, [], ◌∷◌, ◌++◌, Text, text, ◌==◌, text_eq, nat_eq, if◌then◌else◌, Map, update, length, all,
  leb, ltb,
}
use sharm.Golang.Decimal.{parse_int, format_int}
use sharm.Golang.Utf8.{runes}
use sharm.Golang.Strings.{contains}
use sharm.Domain.{Media, MediaType, Codec, av1, h264, opus}
use sharm.Domain.Errors.{Error, ok, err}
use sharm.Domain.Errors
use sharm.Domain.Extensions.{detect_media_type}
use sharm.World.{World, M, pure, ◌>>=◌, ◌>>◌, attempt, call}
use sharm.Http.Validation.FileType.{validate_magic_bytes}
use sharm.Http.Exchange.{
  Request, error_inline, Write, set_header, write_header, render, http_error, Exchange, Handler,
  writes, calling,
}

abbrev is_id_rune : ℕ → Bool
is_id_rune c =
    (leb b'a' c && leb c b'z')
    || (leb b'A' c && leb c b'Z')
    || (leb b'0' c && leb c b'9')
    || c == b'-'

unfoldable pub validate_upload_id : Text → Bool
validate_upload_id id = if id == [] || ltb 64 (length id) then false else all is_id_rune (runes id)

-- A text as the answer 200 has no name here: its status is written.
abbrev pub refuse : Text → ℕ → Exchange → Exchange
refuse message status = writes (http_error message status ∷ [])

-- A file of an upload is written; `os.RemoveAll` of its directory.
unfoldable pub put_chunk : Text → ℕ → Text → Exchange → Exchange
put_chunk id i content x = record x {
  chunks = λ j. if j == id then update (x.chunks id) i content else x.chunks j;
}

unfoldable pub remove_chunks : Text → Exchange → Exchange
remove_chunks id x = record x { chunks = λ j. if j == id then (λ i. none) else x.chunks j }

-- A call that may fail, and what follows it.
abbrev pub step : (Errors.Result (Unit {0}) → Exchange → Exchange) → Exchange → Exchange
step = calling (call (pure tt))

-- io.Copy into the new file, of which a copy that fails leaves `partial data`.
unfoldable pub copied :
    (Text → Text) → Text → ℕ → Text → Errors.Result (Unit {0}) → Exchange → Exchange
unfolding put_chunk
copied partial id i content (err e) x =
    refuse (text "Server error") 500 (put_chunk id i (partial content) x)
copied partial id i content (ok done) x = writes (write_header 200 ∷ []) (put_chunk id i content x)

-- os.OpenFile with O_CREATE and O_EXCL, for what stands at the path.
unfoldable pub create :
    (Text → Text) → Text → ℕ → Text → Option Text → Errors.Result (Unit {0}) → Exchange → Exchange
unfolding copied
create partial id i content there (err e) = refuse (text "Server error") 500
create partial id i content (some old) (ok done) = refuse (text "Server error") 500
create partial id i content none (ok done) = step (copied partial id i content)

unfoldable pub make_directory :
    (Text → Text) → Text → ℕ → Text → Errors.Result (Unit {0}) → Exchange → Exchange
unfolding create
make_directory partial id i content (err e) x = refuse (text "Server error") 500 x
make_directory partial id i content (ok done) x =
    step (create partial id i content (x.chunks id i)) x

unfoldable pub with_chunk : (Text → Text) → Text → ℕ → Option Text → Exchange → Exchange
unfolding make_directory
with_chunk partial id i none = refuse (text "Invalid chunk data") 400
with_chunk partial id i (some content) = step (make_directory partial id i content)

unfoldable pub with_index : (Text → Text) → Text → Option Text → Option ℤ → Exchange → Exchange
unfolding with_chunk
with_index partial id chunk none = refuse (text "Invalid chunkIndex") 400
with_index partial id chunk (some (negsuc n)) = refuse (text "Invalid chunkIndex") 400
with_index partial id chunk (some (pos i)) = with_chunk partial id i chunk

-- ChunkUpload, for a form that could be parsed or not and the file in it.
unfoldable pub chunk_upload : (Text → Text) → Bool → Option Text → Handler
unfolding with_index
chunk_upload partial parsed chunk r =
    let id = r.form_value (text "uploadId") in
    let index = r.form_value (text "chunkIndex") in
    if not parsed
    then refuse (text "Invalid request") 400
    else if id == [] || index == []
    then refuse (text "Missing uploadId or chunkIndex") 400
    else if not (validate_upload_id id)
    then refuse (text "Invalid uploadId format") 400
    else with_index partial id chunk (parse_int index)
