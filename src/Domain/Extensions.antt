-- ===== src/Domain/Extensions.antt =====
-- media.go: the type of a media by the extension of its name.
use sharm.Common.{List, [], ◌∷◌, Text, text, ◌==◌, text_eq, any, if◌then◌else◌}
use sharm.Golang.Strings.{to_lower}
use sharm.Golang.FilePath.{ext}
use sharm.Domain.{MediaType}

abbrev image_exts : List Text
image_exts =
    text ".jpg"
    ∷ text ".jpeg"
    ∷ text ".png"
    ∷ text ".gif"
    ∷ text ".webp"
    ∷ text ".svg"
    ∷ text ".bmp"
    ∷ text ".ico"
    ∷ []

abbrev audio_exts : List Text
audio_exts =
    text ".mp3"
    ∷ text ".wav"
    ∷ text ".ogg"
    ∷ text ".flac"
    ∷ text ".aac"
    ∷ text ".m4a"
    ∷ text ".wma"
    ∷ text ".opus"
    ∷ []

-- DetectMediaType
unfoldable pub detect_media_type : Text → MediaType
detect_media_type filename =
    let e = to_lower (ext filename) in
    if any (λ x. x == e) image_exts
    then MediaType.image
    else if any (λ x. x == e) audio_exts
    then MediaType.audio
    else MediaType.video
