-- ===== src/Http/Validation/FileType.antt =====
-- filetype.go: the type of a file from its first bytes. net/http's DetectContentType is the
-- parameter `detect_content_type`; reading and seeking may fail.
use sharm.Common.{
  ℕ, ◌+◌, ◌/◌, ◌*◌, Bool, false, ◌&&◌, ◌||◌, List, [], ◌∷◌, Text, text, ◌==◌, nat_eq, text_eq, any,
  take, length, get_or, if◌then◌else◌, ltb,
}
use sharm.World.{M, pure, call, ◌>>=◌, ◌>>◌}

-- allowedMIMETypes
abbrev pub allowed_mime_types : List Text
allowed_mime_types =
    text "image/jpeg"
    ∷ text "image/png"
    ∷ text "image/gif"
    ∷ text "image/webp"
    ∷ text "video/mp4"
    ∷ text "video/webm"
    ∷ text "video/quicktime"
    ∷ text "audio/mpeg"
    ∷ text "audio/ogg"
    ∷ text "application/ogg"
    ∷ text "audio/wav"
    ∷ text "audio/wave"
    ∷ text "audio/x-wav"
    ∷ text "audio/flac"
    ∷ text "audio/x-flac"
    ∷ []

unfoldable pub is_allowed : Text → Bool
is_allowed mime = any (λ t. t == mime) allowed_mime_types

-- buf[i], for an i that was checked against the length.
abbrev pub byte_at : Text → ℕ → ℕ
byte_at buf i = get_or buf i 0

-- The four bytes from `i` on.
abbrev pub four_at : Text → ℕ → ℕ → ℕ → ℕ → ℕ → Bool
four_at buf i a b c d =
    byte_at buf i == a
    && byte_at buf (i + 1) == b
    && byte_at buf (i + 2) == c
    && byte_at buf (i + 3) == d

-- c & 0xFE on a byte.
abbrev pub without_last_bit : ℕ → ℕ
without_last_bit c = c / 2 * 2

-- The formats after the ID3 tag, from their names within the file.
unfoldable pub detect_boxed : Text → Text
detect_boxed buf =
    if ltb (length buf) 12
    then []
    else if four_at buf 0 b'R' b'I' b'F' b'F' && four_at buf 8 b'W' b'E' b'B' b'P'
    then text "image/webp"
    else if four_at buf 4 b'f' b't' b'y' b'p'
    then (if four_at buf 8 b'q' b't' b' ' b' ' then text "video/quicktime" else text "video/mp4")
    else []

-- detectCustomMagicBytes: the empty text where it does not know the format.
unfoldable pub detect_custom_magic_bytes : Text → Text
unfolding detect_boxed
detect_custom_magic_bytes buf =
    if ltb (length buf) 4
    then []
    else if four_at buf 0 0x1A 0x45 0xDF 0xA3
    then text "video/webm"
    else if four_at buf 0 b'f' b'L' b'a' b'C'
    then text "audio/flac"
    else if byte_at buf 0 == 0xFF
        && (without_last_bit (byte_at buf 1) == 0xFA || without_last_bit (byte_at buf 1) == 0xF2)
    then text "audio/mpeg"
    else if byte_at buf 0 == b'I' && byte_at buf 1 == b'D' && byte_at buf 2 == b'3'
    then text "audio/mpeg"
    else detect_boxed buf

abbrev pub magic_bytes_buffer_size : ℕ
magic_bytes_buffer_size = 512

module _ (detect_content_type : Text → Text) where
  -- The type of what was read, and whether it is allowed.
  unfoldable pub classify : Text → Text × Bool
  classify [] = (text "application/octet-stream", false)
  classify (c ∷ buf) =
      let custom = detect_custom_magic_bytes (c ∷ buf) in
      let mime = if custom == [] then detect_content_type (c ∷ buf) else custom in
      (mime, is_allowed mime)

  -- ValidateMagicBytes, where one read gives what the file holds up to the size of the buffer.
  unfoldable pub validate_magic_bytes : Text → M (Text × Bool)
  validate_magic_bytes content = do
    buf ← call (pure (take magic_bytes_buffer_size content))
    call (pure tt)
    pure (classify buf)
