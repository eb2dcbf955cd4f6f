-- ===== src/Http/Validation/Filename.antt =====
-- filename.go: names of files for headers.
use sharm.Common.{
  ℕ, zero, suc, ◌-◌, Bool, ◌||◌, List, [], ◌∷◌, ◌++◌, Text, text, ◌==◌, nat_eq, text_eq, all, take,
  length, if◌then◌else◌, leb, ltb,
}
use sharm.Golang.FilePath.{ext}
use sharm.Golang.Strings.{trim_space}
use sharm.Golang.Utf8.{runes, encode_rune, rune_error, valid_string, decode_last_rune}

abbrev pub max_filename_length : ℕ
max_filename_length = 255

-- dangerousChars
abbrev pub is_dangerous : ℕ → Bool
is_dangerous r = r == b'"' || r == b'\\' || r == b'/' || r == b':' || r == 10 || r == 13

unfoldable pub should_replace : ℕ → Bool
should_replace r = ltb r 32 || r == 127 || is_dangerous r

-- The loop over the runes of the name.
unfoldable pub replace_runes : List ℕ → Text
replace_runes [] = []
replace_runes (r ∷ rs) = encode_rune (if should_replace r then b'_' else r) ++ replace_runes rs

unfoldable pub is_only_underscores : Text → Bool
is_only_underscores s = all (λ r. r == b'_') (runes s)

-- for maxBytes > 0 && !utf8.ValidString(s[:maxBytes])
unfoldable pub valid_length : Text → ℕ → ℕ
valid_length s zero = zero
valid_length s (suc n) =
    let shorter = valid_length s n in if valid_string (take (suc n) s) then suc n else shorter

-- The loop that drops the bytes of a rune that is not decoded.
unfoldable pub whole_length : Text → ℕ → ℕ
whole_length s zero = zero
whole_length s (suc n) =
    let shorter = whole_length s n in
    if decode_last_rune (take (suc n) s) == rune_error then shorter else suc n

unfoldable pub truncate_to_bytes : Text → ℕ → Text
unfolding valid_length whole_length
truncate_to_bytes s max =
    if leb (length s) max then s else take (whole_length s (valid_length s max)) s

unfoldable pub truncate_preserving_extension : Text → Text
unfolding truncate_to_bytes
truncate_preserving_extension name =
    let extension = ext name in
    let ext_len = length extension in
    if ext_len == 0 || leb max_filename_length ext_len
    then truncate_to_bytes name max_filename_length
    else truncate_to_bytes (take (length name - ext_len) name) (max_filename_length - ext_len)
      ++ extension

unfoldable pub sanitize_filename : Text → Text
unfolding replace_runes
sanitize_filename name =
    let result = trim_space (replace_runes (runes name)) in
    if result == [] || is_only_underscores result
    then text "file"
    else if ltb max_filename_length (length result)
    then truncate_preserving_extension result
    else result

-- ContentDisposition; `quote` is strconv.Quote, which the verb %q stands for.
unfoldable pub content_disposition : (Text → Text) → Text → Bool → Text
content_disposition quote filename is_inline =
    let disposition = if is_inline then text "inline" else text "attachment" in
    disposition ++ (text "; filename=" ++ quote (sanitize_filename filename))
