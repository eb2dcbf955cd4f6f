-- ===== src/Domain/Accept.antt =====
-- media.go: the choice of a variant by an Accept header. Numbers of floating point, and strconv's
-- reading of them, are parameters.
use sharm.Common.{
  ℕ, Bool, ◌&&◌, ◌||◌, Option, none, some, List, [], ◌∷◌, ◌++◌, Text, text, ◌==◌, nat_eq, text_eq,
  if◌then◌else◌, ltb, has_prefix, drop,
}
use sharm.Golang.Split.{split}
use sharm.Golang.Strings.{trim_space, has_suffix, trim_suffix, cut}
use sharm.Domain.{Variant, Media, Codec, av1, h264, opus}
use sharm.Domain.Variants.{is_done, best_variant}

-- float64: two of its numbers, its comparisons, and strconv.ParseFloat where it has no error.
pub record Floats : Type 1 where
  pub Float : Type 0
  pub one : Float
  pub minus_one : Float
  pub above : Float → Float → Bool
  pub same : Float → Float → Bool
  pub is_negative : Float → Bool
  pub parse_float : Text → Option Float

-- codecMIME
unfoldable pub codec_mime : Codec → Option Text
codec_mime codec =
    if codec == av1
    then some (text "video/webm")
    else if codec == h264
    then some (text "video/mp4")
    else if codec == opus
    then some (text "audio/ogg")
    else none

-- codecPriority: a missing key reads as 0.
unfoldable pub codec_priority : Codec → ℕ
codec_priority codec = if codec == h264 then 1 else if codec == opus then 2 else 0

module _ (floats : Floats) where
  open floats use {Float, one, minus_one, above, same, is_negative, parse_float}

  pub record AcceptEntry : Type 0 where
    pub mime : Text
    pub q : Float

  abbrev or_one : Option Float → Float
  or_one none = one
  or_one (some v) = v

  -- What follows the semicolon.
  unfoldable pub quality : Text → Float
  quality params =
      if has_prefix params (text "q=") then or_one (parse_float (drop 2 params)) else one

  -- The parts of one entry.
  unfoldable pub entry_of : Text → Option (Text × Text) → AcceptEntry
  unfolding quality
  entry_of part none = record { mime = part; q = one }
  entry_of part (some (before, after)) = record {
    mime = trim_space before;
    q = quality (trim_space after);
  }

  -- parseAccept, on the parts between the commas.
  unfoldable pub parse_parts : List Text → List AcceptEntry
  unfolding entry_of
  parse_parts [] = []
  parse_parts (p ∷ parts) =
      let part = trim_space p in
      let rest = parse_parts parts in
      if part == [] then rest else entry_of part (cut b';' part) ∷ rest

  unfoldable pub parse_accept : Text → List AcceptEntry
  unfolding parse_parts
  parse_accept header = parse_parts (split b',' header)

  -- The loop over the entries, for one variant.
  unfoldable pub best_quality : Text → Float → List AcceptEntry → Float
  best_quality mime best [] = best
  best_quality mime best (e ∷ entries) =
      let named =
        if (e.mime == text "*/*" || e.mime == mime) && above e.q best then e.q else best in
      let wild =
        if has_suffix e.mime (text "/*")
          && has_prefix mime (trim_suffix e.mime (text "*"))
          && above e.q named
        then e.q
        else named in
      best_quality mime wild entries

  pub record Candidate : Type 0 where
    pub variant : Variant
    pub q : Float
    pub prio : ℕ

  -- The body of the loop over the variants.
  unfoldable pub consider : List AcceptEntry → Variant → Option Text → List Candidate
  unfolding best_quality
  consider entries v none = []
  consider entries v (some mime) =
      let q = best_quality mime minus_one entries in
      if is_negative q
      then []
      else record { variant = v; q = q; prio = codec_priority v.codec } ∷ []

  unfoldable pub candidates : List AcceptEntry → List Variant → List Candidate
  unfolding consider
  candidates entries [] = []
  candidates entries (v ∷ vs) =
      let rest = candidates entries vs in
      if is_done v.status then consider entries v (codec_mime v.codec) ++ rest else rest

  -- The loop over the candidates after the first.
  unfoldable pub choose : Candidate → List Candidate → Candidate
  choose best [] = best
  choose best (c ∷ cs) =
      choose (if above c.q best.q || (same c.q best.q && ltb c.prio best.prio) then c else best) cs

  unfoldable pub chosen : List Candidate → Option Variant
  unfolding choose
  chosen [] = none
  chosen (c ∷ cs) = some (choose c cs).variant

  -- BestVariantForAccept
  unfoldable pub best_variant_for_accept : Media → Text → Option Variant
  unfolding parse_accept candidates chosen
  best_variant_for_accept m accept =
      let trimmed = trim_space accept in
      if trimmed == []
      then best_variant m
      else chosen (candidates (parse_accept trimmed) m.variants)
