-- ===== src/Golang/Strings.antt =====
-- package strings, on byte strings.
use sharm.Common.{
  Option, none, some, ℕ, zero, suc, ◌+◌, Bool, ◌&&◌, ◌||◌, List, [], ◌∷◌, ◌++◌, Text, ◌==◌, nat_eq,
  text_eq, if◌then◌else◌, leb, has_prefix, drop, length, All,
}
use mathlib.Core.List.{reverse, reverse_aux}

-- The width of the white space, by unicode.IsSpace, that a string begins with: 0 where it begins
-- with none.
abbrev is_ascii_space : ℕ → Bool
is_ascii_space c = (leb 9 c && leb c 13) || c == 32

abbrev space_2 : ℕ → ℕ → Bool
space_2 c d = c == 0xC2 && (d == 0x85 || d == 0xA0)

abbrev space_3 : ℕ → ℕ → ℕ → Bool
space_3 c d e =
    (c == 0xE1 && d == 0x9A && e == 0x80)
    || (c == 0xE2
        && d == 0x80
        && ((leb 0x80 e && leb e 0x8A) || e == 0xA8 || e == 0xA9 || e == 0xAF))
    || (c == 0xE2 && d == 0x81 && e == 0x9F)
    || (c == 0xE3 && d == 0x80 && e == 0x80)

abbrev space_width : Text → ℕ
space_width [] = 0
space_width (c ∷ []) = if is_ascii_space c then 1 else 0
space_width (c ∷ d ∷ []) = if is_ascii_space c then 1 else if space_2 c d then 2 else 0
space_width (c ∷ d ∷ e ∷ s) =
    if is_ascii_space c then 1 else if space_2 c d then 2 else if space_3 c d e then 3 else 0

-- The same of the end of a string, on its reverse.
abbrev space_width_back : Text → ℕ
space_width_back [] = 0
space_width_back (c ∷ []) = if is_ascii_space c then 1 else 0
space_width_back (d ∷ c ∷ []) = if is_ascii_space d then 1 else if space_2 c d then 2 else 0
space_width_back (e ∷ d ∷ c ∷ s) =
    if is_ascii_space e then 1 else if space_2 d e then 2 else if space_3 c d e then 3 else 0

-- Skips what `width` measures, `skip` bytes of it still to go.
unfoldable pub trim_from : (Text → ℕ) → ℕ → Text → Text
trim_from width skip [] = []
trim_from width (suc k) (c ∷ s) = trim_from width k s
trim_from width zero (c ∷ s) = elim (width (c ∷ s)) [ zero ↦ c ∷ s | suc k ↦ trim_from width k s ]

unfoldable pub trim_left : Text → Text
unfolding trim_from
trim_left s = trim_from space_width 0 s

-- strings.TrimSpace
unfoldable pub trim_space : Text → Text
unfolding trim_from
trim_space s = reverse (trim_from space_width_back 0 (reverse (trim_left s)))

-- strings.TrimPrefix and TrimSuffix
unfoldable pub trim_prefix : Text → Text → Text
trim_prefix s p = if has_prefix s p then drop (length p) s else s

unfoldable pub has_suffix : Text → Text → Bool
has_suffix s p = has_prefix (reverse s) (reverse p)

unfoldable pub trim_suffix : Text → Text → Text
unfolding has_suffix
trim_suffix s p = if has_suffix s p then reverse (drop (length p) (reverse s)) else s

-- strings.Contains
unfoldable pub contains : Text → Text → Bool
contains [] p = has_prefix [] p
contains (c ∷ s) p = has_prefix (c ∷ s) p || contains s p

-- The text before the first byte `sep`, and the text after it: strings.Index and the two slices.
unfoldable pub cut : ℕ → Text → Option (Text × Text)
cut sep [] = none
cut sep (c ∷ s) =
    let rest = cut sep s in
    if c == sep
    then some ([], s)
    else elim rest [ none ↦ none | some parts ↦ some (c ∷ parts.0, parts.1) ]

-- strings.Join
unfoldable pub join : List Text → Text → Text
join [] sep = []
join (s ∷ []) sep = s
join (s ∷ t ∷ ss) sep = s ++ (sep ++ join (t ∷ ss) sep)

-- strings.ToLower. The two runes outside ASCII whose lower case is ASCII are İ and the Kelvin sign;
-- the others are left here, since the code compares the result to ASCII texts only.
abbrev lower_byte : ℕ → ℕ
lower_byte c = if leb b'A' c && leb c b'Z' then c + 32 else c

-- The lower case of the rune that begins with `c`, if it is one of these two, and its width.
abbrev lower_rune : ℕ → Text → ℕ × ℕ
lower_rune c [] = (lower_byte c, 0)
lower_rune c (d ∷ []) = if c == 0xC4 && d == 0xB0 then (b'i', 1) else (lower_byte c, 0)
lower_rune c (d ∷ e ∷ s) =
    if c == 0xC4 && d == 0xB0
    then (b'i', 1)
    else if c == 0xE2 && d == 0x84 && e == 0xAA
    then (b'k', 2)
    else (lower_byte c, 0)

unfoldable pub lower_from : ℕ → Text → Text
lower_from skip [] = []
lower_from zero (c ∷ s) = let (l, k) = lower_rune c s in l ∷ lower_from k s
lower_from (suc k) (c ∷ s) = lower_from k s

unfoldable pub to_lower : Text → Text
unfolding lower_from
to_lower s = lower_from 0 s

-- Trimming keeps what holds of every byte.
module _ (P : ℕ → Type 0) where
  after_width :
      (width : Text → ℕ) (c : ℕ) (s : Text) (n : ℕ)
      → All P (c ∷ s)
      → ((k : ℕ) → All P (trim_from width k s))
      → All P (elim n [ zero ↦ c ∷ s | suc k ↦ trim_from width k s ])
  after_width width c s zero a h = a
  after_width width c s (suc k) a h = h k

  All-trim_from :
      (width : Text → ℕ) (skip : ℕ) (s : Text) → All P s → All P (trim_from width skip s)
  unfolding trim_from
  All-trim_from width skip [] a = tt
  All-trim_from width (suc k) (c ∷ s) a = All-trim_from width k s a.1
  All-trim_from width zero (c ∷ s) a =
      after_width width c s (width (c ∷ s)) a (λ k. All-trim_from width k s a.1)

  All-reverse_aux : (s seen : Text) → All P s → All P seen → All P (reverse_aux s seen)
  All-reverse_aux [] seen a b = b
  All-reverse_aux (c ∷ s) seen a b = All-reverse_aux s (c ∷ seen) a.1 (a.0, b)

  pub All-reverse : (s : Text) → All P s → All P (reverse s)
  All-reverse s a = All-reverse_aux s [] a tt

  pub All-trim_space : (s : Text) → All P s → All P (trim_space s)
  unfolding trim_space trim_left
  All-trim_space s a =
      All-reverse _
        (All-trim_from space_width_back 0 _ (All-reverse _ (All-trim_from space_width 0 s a)))
