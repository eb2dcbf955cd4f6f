-- ===== src/Golang/Utf8.antt =====
-- unicode/utf8, and the runes of a string as `range` gives them.
use sharm.Common.{
  ℕ, zero, suc, ◌+◌, ◌-◌, ◌*◌, ◌/◌, ◌%◌, ◌≤◌, ◌≡◌, refl, ◌<◌, ◌⊎◌, Bool, true, not, ◌&&◌, ◌||◌,
  List, [], ◌∷◌, Text, ◌==◌, nat_eq, if◌then◌else◌, ltb, leb, All, arith, Bool-cases, inl, inr,
  length,
}
use mathlib.Core.List.{reverse}

abbrev pub rune_error : ℕ
rune_error = 0xFFFD

abbrev pub between : ℕ → ℕ → ℕ → Bool
between lo hi c = leb lo c && leb c hi

abbrev is_continuation : ℕ → Bool
is_continuation c = between 0x80 0xBF c

-- The range of the second byte after a first byte of three or four.
abbrev second_of_3 : ℕ → ℕ → Bool
second_of_3 c d =
    if c == 0xE0
    then between 0xA0 0xBF d
    else if c == 0xED
    then between 0x80 0x9F d
    else is_continuation d

abbrev second_of_4 : ℕ → ℕ → Bool
second_of_4 c d =
    if c == 0xF0
    then between 0x90 0xBF d
    else if c == 0xF4
    then between 0x80 0x8F d
    else is_continuation d

abbrev decode_2 : ℕ → Text → ℕ × ℕ
decode_2 c [] = (rune_error, 1)
decode_2 c (d ∷ s) = if is_continuation d then (c % 32 * 64 + d % 64, 2) else (rune_error, 1)

abbrev decode_3 : ℕ → Text → ℕ × ℕ
decode_3 c (d ∷ e ∷ s) =
    if second_of_3 c d && is_continuation e
    then (c % 16 * 4096 + d % 64 * 64 + e % 64, 3)
    else (rune_error, 1)
decode_3 c _ = (rune_error, 1)

abbrev decode_4 : ℕ → Text → ℕ × ℕ
decode_4 c (d ∷ e ∷ f ∷ s) =
    if second_of_4 c d && is_continuation e && is_continuation f
    then (c % 8 * 262144 + d % 64 * 4096 + e % 64 * 64 + f % 64, 4)
    else (rune_error, 1)
decode_4 c _ = (rune_error, 1)

-- DecodeRuneInString of a string that begins with a byte: the rune and its width.
unfoldable pub decode_first : ℕ → Text → ℕ × ℕ
decode_first c s =
    if ltb c 0x80
    then (c, 1)
    else if between 0xC2 0xDF c
    then decode_2 c s
    else if between 0xE0 0xEF c
    then decode_3 c s
    else if between 0xF0 0xF4 c
    then decode_4 c s
    else (rune_error, 1)

-- The runes from where the last one ends, `skip` bytes ahead.
unfoldable pub runes_from : ℕ → Text → List ℕ
unfolding decode_first
runes_from skip [] = []
runes_from zero (c ∷ s) = let (r, n) = decode_first c s in r ∷ runes_from (n - 1) s
runes_from (suc k) (c ∷ s) = runes_from k s

-- for _, r := range s
unfoldable pub runes : Text → List ℕ
unfolding runes_from
runes s = runes_from 0 s

-- utf8.ValidString
unfoldable pub valid_from : ℕ → Text → Bool
unfolding decode_first
valid_from skip [] = true
valid_from zero (c ∷ s) =
    let (r, n) = decode_first c s in not (r == rune_error && n == 1) && valid_from (n - 1) s
valid_from (suc k) (c ∷ s) = valid_from k s

unfoldable pub valid_string : Text → Bool
unfolding valid_from
valid_string s = valid_from 0 s

-- WriteRune
unfoldable pub encode_rune : ℕ → Text
encode_rune r =
    if ltb r 0x80
    then r ∷ []
    else if ltb r 0x800
    then (0xC0 + r / 64) ∷ (0x80 + r % 64) ∷ []
    else if between 0xD800 0xDFFF r || ltb 0x10FFFF r
    then 0xEF ∷ 0xBF ∷ 0xBD ∷ []
    else if ltb r 0x10000
    then (0xE0 + r / 4096) ∷ (0x80 + r / 64 % 64) ∷ (0x80 + r % 64) ∷ []
    else (0xF0 + r / 262144) ∷ (0x80 + r / 4096 % 64) ∷ (0x80 + r / 64 % 64) ∷ (0x80 + r % 64) ∷ []

abbrev last_of : Text → ℕ
last_of [] = rune_error
last_of (c ∷ s) = let (r, n) = decode_first c s in if n == length (c ∷ s) then r else rune_error

-- DecodeLastRuneInString, on the bytes from the last one back: at most three of them continue a
-- rune, and the bytes from its first one on have to be one rune.
unfoldable pub last_from : ℕ → Text → Text → ℕ
unfolding decode_first
last_from zero taken back = rune_error
last_from (suc k) taken [] = rune_error
last_from (suc k) taken (c ∷ back) =
    let earlier = last_from k (c ∷ taken) back in
    if is_continuation c then earlier else last_of (c ∷ taken)

unfoldable pub decode_last_rune : Text → ℕ
unfolding last_from
decode_last_rune s = last_from 4 [] (reverse s)

-- A rune that is no ASCII character is written in bytes that are none.
pub encode_rune_lem :
    (r : ℕ) → ((r < 0x80) × (encode_rune r ≡ r ∷ [])) ⊎ All (λ c. 0x80 ≤ c) (encode_rune r)
unfolding encode_rune
encode_rune_lem r = elim (Bool-cases (ltb r 0x80)) [
  | inl ascii ↦ inl (ground arith, rw ascii refl)
  | inr wide ↦ inr (ground arith)
]
