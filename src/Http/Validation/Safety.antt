-- ===== src/Http/Validation/Safety.antt =====
-- filename.go and filetype.go: what comes out of the checks.
use sharm.Common.{
  ℕ, zero, suc, ◌-◌, ◌≤◌, ◌≡◌, ◌≢◌, false, ◌||◌, List, [], ◌∷◌, Text, text, ◌==◌, nat_eq, text_eq,
  take, length, length-append, length-take, if◌then◌else◌, leb, ltb, All, All-append, All-map,
  arith, Bool-cases, inl, inr,
}
use mathlib.Core.List.{reverse}
use sharm.Golang.FilePath.{ext, ext_from}
use sharm.Golang.Strings.{trim_space, All-trim_space, All-reverse}
use sharm.Golang.Utf8.{runes, encode_rune, encode_rune_lem}
use sharm.Http.Validation.Filename.{
  max_filename_length, should_replace, replace_runes, is_only_underscores, valid_length,
  whole_length, truncate_to_bytes, truncate_preserving_extension, sanitize_filename,
}

-- A byte that can stand between quotes in a header: no control character, quote, backslash, slash
-- or colon.
abbrev pub IsSafe : ℕ → Type 0
IsSafe c = (32 ≤ c) × (c ≢ 127) × (c ≢ b'"') × (c ≢ b'\\') × (c ≢ b'/') × (c ≢ b':')

wide-IsSafe : (c : ℕ) → 0x80 ≤ c → IsSafe c
wide-IsSafe c h = ground arith

encode_rune-IsSafe : (r : ℕ) → should_replace r ≡ false → All IsSafe (encode_rune r)
unfolding should_replace
encode_rune-IsSafe r keep = elim (encode_rune_lem r) [
  | inl (ascii, same) ↦ rw same (ground arith, tt)
  | inr wide ↦ All-map wide-IsSafe (encode_rune r) wide
]

replaced : (r : ℕ) → should_replace (if should_replace r then b'_' else r) ≡ false
unfolding should_replace
replaced r = ground arith

replace_runes-IsSafe : (rs : List ℕ) → All IsSafe (replace_runes rs)
unfolding replace_runes
replace_runes-IsSafe [] = tt
replace_runes-IsSafe (r ∷ rs) =
    All-append IsSafe _ _ (encode_rune-IsSafe _ (replaced r)) (replace_runes-IsSafe rs)

module _ (P : ℕ → Type 0) where
  All-take : (n : ℕ) (s : Text) → All P s → All P (take n s)
  All-take zero s a = tt
  All-take (suc n) [] a = tt
  All-take (suc n) (c ∷ s) a = (a.0, All-take n s a.1)

  All-ext_from : (seen s : Text) → All P seen → All P s → All P (ext_from seen s)
  unfolding ext_from
  All-ext_from seen [] a b = tt
  All-ext_from seen (c ∷ s) a b =
      let rest = All-ext_from (c ∷ seen) s (b.0, a) b.1 in
      elim (Bool-cases (c == b'/')) [
        | inl slash ↦ rw slash tt
        | inr other ↦ elim (Bool-cases (c == b'.')) [
          | inl dot ↦ rw (other, dot) (b.0, a)
          | inr plain ↦ rw (other, plain) rest
        ]
      ]

  All-ext : (s : Text) → All P s → All P (ext s)
  unfolding ext
  All-ext s a = All-ext_from [] (reverse s) tt (All-reverse P s a)

whole_length-le : (s : Text) (n : ℕ) → whole_length s n ≤ n
unfolding whole_length
whole_length-le s zero = omega arith
whole_length-le s (suc n) = ground (arith, whole_length-le s n)

valid_length-le : (s : Text) (n : ℕ) → valid_length s n ≤ n
unfolding valid_length
valid_length-le s zero = omega arith
valid_length-le s (suc n) = ground (arith, valid_length-le s n)

truncate_to_bytes_lem :
    (s : Text) (max : ℕ)
    → All IsSafe s
    → All IsSafe (truncate_to_bytes s max) × (length (truncate_to_bytes s max) ≤ max)
unfolding truncate_to_bytes
truncate_to_bytes_lem s max a = elim (Bool-cases (leb (length s) max)) [
  | inl short ↦ rw short (a, ground arith)
  | inr long ↦
      let n = whole_length s (valid_length s max) in
      rw long (
        All-take IsSafe n s a,
        ground
            (arith, length-take n s, whole_length-le s (valid_length s max), valid_length-le s max),
      )
]

truncate_preserving_extension_lem :
    (name : Text)
    → All IsSafe name
    → All IsSafe (truncate_preserving_extension name)
      × (length (truncate_preserving_extension name) ≤ max_filename_length)
unfolding truncate_preserving_extension
truncate_preserving_extension_lem name a =
    let e = ext name in
    let n = length e in
    elim (Bool-cases (n == 0 || leb max_filename_length n)) [
      | inl plain ↦ rw plain (truncate_to_bytes_lem name max_filename_length a)
      | inr kept ↦
          let base = take (length name - n) name in
          let short =
            truncate_to_bytes_lem base (max_filename_length - n) (All-take IsSafe _ name a) in
          rw kept (
            All-append IsSafe _ e short.0 (All-ext IsSafe name a),
            ground (
              arith,
              length-append (truncate_to_bytes base (max_filename_length - n)) e,
              short.1,
            ),
          )
    ]

file-IsSafe : All IsSafe (text "file") × (length (text "file") ≤ max_filename_length)
file-IsSafe = (ground arith, omega arith)

-- What `sanitize_filename` gives, whatever bytes the name has, is at most 255 bytes long, and has
-- no control character, quote, backslash, slash or colon.
pub sanitize_filename-IsSafe :
    (name : Text)
    → All IsSafe (sanitize_filename name) × (length (sanitize_filename name) ≤ max_filename_length)
unfolding sanitize_filename
sanitize_filename-IsSafe name =
    let result = trim_space (replace_runes (runes name)) in
    let safe =
      All-trim_space IsSafe (replace_runes (runes name)) (replace_runes-IsSafe (runes name)) in
    elim (Bool-cases (result == [] || is_only_underscores result)) [
      | inl nothing ↦ rw nothing file-IsSafe
      | inr something ↦ elim (Bool-cases (ltb max_filename_length (length result))) [
        | inl long ↦ rw (something, long) (truncate_preserving_extension_lem result safe)
        | inr short ↦ rw (something, short) (safe, ground arith)
      ]
    ]
