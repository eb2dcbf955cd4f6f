-- ===== src/Http/MediaTypes.antt =====
-- handler.go: the MIME types of files, and the names that they are sent under.
use sharm.Common.{Bool, true, false, ◌||◌, ◌++◌, Text, text, ◌==◌, text_eq, if◌then◌else◌}
use sharm.Golang.Strings.{trim_suffix, to_lower}
use sharm.Golang.FilePath.{ext}
use sharm.Domain.{Media, MediaType, Codec, av1, h264, opus}

unfoldable pub detect_original_mime_type : Media → Text
detect_original_mime_type media =
    let e = to_lower (ext media.original_name) in
    if e == text ".png"
    then text "image/png"
    else if e == text ".gif"
    then text "image/gif"
    else if e == text ".webp"
    then text "image/webp"
    else if e == text ".svg"
    then text "image/svg+xml"
    else if e == text ".jpg" || e == text ".jpeg"
    then text "image/jpeg"
    else if e == text ".mp4" || e == text ".m4v"
    then text "video/mp4"
    else if e == text ".webm"
    then text "video/webm"
    else if e == text ".mov"
    then text "video/quicktime"
    else if e == text ".avi"
    then text "video/x-msvideo"
    else if e == text ".mkv"
    then text "video/x-matroska"
    else if e == text ".mp3"
    then text "audio/mpeg"
    else if e == text ".ogg" || e == text ".opus"
    then text "audio/ogg"
    else if e == text ".wav"
    then text "audio/wav"
    else if e == text ".flac"
    then text "audio/flac"
    else if e == text ".aac"
    then text "audio/aac"
    else if e == text ".m4a"
    then text "audio/mp4"
    else text "application/octet-stream"

unfoldable pub audio_mime_type : Text → Text
audio_mime_type e =
    if e == text ".mp3"
    then text "audio/mpeg"
    else if e == text ".ogg"
    then text "audio/ogg"
    else if e == text ".wav"
    then text "audio/wav"
    else if e == text ".flac"
    then text "audio/flac"
    else text "audio/mpeg"

-- detectMIMEType, by the type of the media.
unfoldable pub mime_type_of : MediaType → Media → Text
unfolding detect_original_mime_type audio_mime_type
mime_type_of MediaType.image media = detect_original_mime_type media
mime_type_of MediaType.audio media = audio_mime_type (to_lower (ext media.original_name))
mime_type_of MediaType.video media =
    if media.codec == av1 then text "video/webm" else text "video/mp4"

unfoldable pub detect_mime_type : Media → Text
unfolding mime_type_of
detect_mime_type media = mime_type_of media.type media

abbrev is_audio : MediaType → Bool
is_audio MediaType.audio = true
is_audio _ = false

unfoldable pub codec_mime_type : Codec → MediaType → Text
codec_mime_type codec type =
    if codec == av1
    then text "video/webm"
    else if codec == h264
    then text "video/mp4"
    else if codec == opus
    then text "audio/ogg"
    else if is_audio type
    then text "audio/mpeg"
    else text "video/mp4"

unfoldable pub variant_filename : Text → Codec → Text
variant_filename original_name codec =
    let stem = trim_suffix original_name (ext original_name) in
    if codec == av1
    then stem ++ text ".av1.webm"
    else if codec == h264
    then stem ++ text ".h264.mp4"
    else if codec == opus
    then stem ++ text ".opus.ogg"
    else original_name
