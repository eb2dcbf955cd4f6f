-- ===== src/Http/Validation/Tests.antt =====
-- Names and first bytes of files, and examples for the properties.
use sharm.Common.{
  ◌≤◌, ◌≡◌, ◌≢◌, ◌⊎◌, ◌↔◌, refl, true, [], ◌∷◌, ◌++◌, Text, text, All, length, text_beq,
}
use sharm.Http.Validation.Filename.{
  sanitize_filename, max_filename_length, replace_runes, should_replace, is_only_underscores,
  truncate_to_bytes,
}
use sharm.Http.Validation.FileType.{classify, is_allowed, detect_custom_magic_bytes}
use sharm.Http.Validation.Safety.{IsSafe, sanitize_filename-IsSafe}
use sharm.Http.Validation.Allowed.{classify_iff}
use sharm.Golang.Strings.{trim_space, trim_left}
use sharm.Golang.Utf8.{runes, encode_rune, decode_last_rune, valid_string}

-- A header that is broken into two.
abbrev two_lines : Text
two_lines = text "a\"b" ++ (10 ∷ 0xC3 ∷ 0xA9 ∷ text ".mp4")

two_lines_lem : sanitize_filename two_lines ≡ text "a_b_" ++ (0xC3 ∷ 0xA9 ∷ text ".mp4")
unfolding sanitize_filename replace_runes should_replace is_only_underscores trim_space trim_left
    runes encode_rune text_beq
two_lines_lem = refl

blank : sanitize_filename (text "  ") ≡ text "file"
unfolding sanitize_filename replace_runes should_replace is_only_underscores trim_space trim_left
    runes encode_rune text_beq
blank = refl

-- U+FFFD twice: nothing is left of the first.
nothing_left : truncate_to_bytes (0xEF ∷ 0xBF ∷ 0xBD ∷ 0xEF ∷ 0xBF ∷ 0xBD ∷ []) 3 ≡ []
unfolding truncate_to_bytes decode_last_rune valid_string
nothing_left = refl

sanitize_filename-IsSafe_example :
    All IsSafe (sanitize_filename two_lines)
    × (length (sanitize_filename two_lines) ≤ max_filename_length)
sanitize_filename-IsSafe_example = sanitize_filename-IsSafe two_lines

-- What net/http says of an unknown format.
abbrev octets : Text → Text
octets buf = text "application/octet-stream"

abbrev flac : Text
flac = text "fLaC" ++ (0 ∷ 0 ∷ [])

flac_lem : classify octets flac ≡ (text "audio/flac", true)
unfolding classify is_allowed detect_custom_magic_bytes text_beq
flac_lem = refl

classify_iff_example :
    (classify octets flac).1 ≡ true
    ↔ (flac ≢ []) × ((detect_custom_magic_bytes flac ≢ []) ⊎ (is_allowed (octets flac) ≡ true))
classify_iff_example = classify_iff octets flac
