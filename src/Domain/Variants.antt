-- ===== src/Domain/Variants.antt =====
-- media.go: the state of a media record and the choice among its variants.
use sharm.Common.{
  ℕ, ◌≡◌, refl, sym, subst, ◌∙◌, ◌↔◌, ◌⊎◌, inl, inr, Bool, true, false, not, ◌&&◌, Option, none,
  some, List, [], ◌∷◌, Text, ◌==◌, text_eq, All, arith, if◌then◌else◌, Bool-cases, ltb,
}
use sharm.Domain.{Variant, VariantStatus, Media, MediaStatus, Codec}

abbrev pub is_done : VariantStatus → Bool
is_done VariantStatus.done = true
is_done _ = false

abbrev pub is_failed : VariantStatus → Bool
is_failed VariantStatus.failed = true
is_failed _ = false

unfoldable pub mark_as_done : Media → Text → Codec → ℕ → ℕ → Text → ℕ → Media
mark_as_done m path codec width height thumb size = record m {
  status = MediaStatus.done;
  converted_path = path;
  codec = codec;
  width = width;
  height = height;
  thumb_path = thumb;
  file_size = size;
}

unfoldable pub mark_as_failed : Media → Text → Media
mark_as_failed m message = record m { status = MediaStatus.failed; error_message = message }

-- time.Now().After(m.ExpiresAt)
unfoldable pub is_expired : Media → ℕ → Bool
is_expired m now = ltb m.expires_at now

-- The loops over m.Variants.
unfoldable pub all_terminal : List Variant → Bool
all_terminal [] = true
all_terminal (v ∷ vs) =
    if not (is_done v.status) && not (is_failed v.status) then false else all_terminal vs

unfoldable pub has_done : List Variant → Bool
has_done [] = false
has_done (v ∷ vs) = if is_done v.status then true else has_done vs

unfoldable pub best : List Variant → Option Variant
best [] = none
best (v ∷ vs) = if is_done v.status then some v else best vs

unfoldable pub by_codec : Codec → List Variant → Option Variant
by_codec c [] = none
by_codec c (v ∷ vs) = if v.codec == c then some v else by_codec c vs

unfoldable pub all_variants_terminal : Media → Bool
all_variants_terminal m = all_terminal m.variants

unfoldable pub has_done_variant : Media → Bool
has_done_variant m = has_done m.variants

unfoldable pub best_variant : Media → Option Variant
best_variant m = best m.variants

unfoldable pub variant_by_codec : Media → Codec → Option Variant
variant_by_codec m c = by_codec c m.variants

-- `v` is the first variant of the list that passes a test.
pub data IsFirst (p : Variant → Bool) (v : Variant) : List Variant → Type 0 where
  here : {vs : List Variant} → p v ≡ true → IsFirst p v (v ∷ vs)
  later : {w : Variant} {vs : List Variant} → p w ≡ false → IsFirst p v vs → IsFirst p v (w ∷ vs)

first : (Variant → Bool) → List Variant → Option Variant
first p [] = none
first p (v ∷ vs) = if p v then some v else first p vs

module _ (p : Variant → Bool) (v : Variant) where
  first-IsFirst : (vs : List Variant) → first p vs ≡ some v → IsFirst p v vs
  unfolding first
  first-IsFirst [] h = cc
  first-IsFirst (w ∷ vs) h = elim (Bool-cases (p w)) [
    | inl passes ↦
        let same : w ≡ v = ground arith in
        subst (λ u. IsFirst p v (u ∷ vs)) (sym same) (here (rw (← same) passes))
    | inr fails ↦ later fails (first-IsFirst vs (ground arith))
  ]

  IsFirst-first : {vs : List Variant} → IsFirst p v vs → first p vs ≡ some v
  unfolding first
  IsFirst-first (here h) = rw h
  IsFirst-first (later h rest) = rw h (IsFirst-first rest)

first-eq-none_iff :
    (p : Variant → Bool) (vs : List Variant) → (first p vs ≡ none) ↔ All (λ v. p v ≡ false) vs
unfolding first
first-eq-none_iff p [] = ground arith
first-eq-none_iff p (v ∷ vs) = ground (arith, first-eq-none_iff p vs)

best-eq-first : (vs : List Variant) → best vs ≡ first (λ v. is_done v.status) vs
unfolding best first
best-eq-first [] = refl
best-eq-first (v ∷ vs) = rw (best-eq-first vs)

by_codec-eq-first : (c : Codec) (vs : List Variant) → by_codec c vs ≡ first (λ v. v.codec == c) vs
unfolding by_codec first
by_codec-eq-first c [] = refl
by_codec-eq-first c (v ∷ vs) = rw (by_codec-eq-first c vs)

-- The best variant is exactly the first one that is done.
pub best_variant-IsFirst :
    (m : Media) (v : Variant)
    → (best_variant m ≡ some v) ↔ IsFirst (λ w. is_done w.status) v m.variants
unfolding best_variant
best_variant-IsFirst m v = (
  λ h. first-IsFirst _ v m.variants (sym (best-eq-first m.variants) ∙ h),
  λ h. best-eq-first m.variants ∙ IsFirst-first _ v h,
)

-- The variant of a codec is exactly the first one that has it.
variant_by_codec-IsFirst :
    (m : Media) (c : Codec) (v : Variant)
    → (variant_by_codec m c ≡ some v) ↔ IsFirst (λ w. w.codec == c) v m.variants
unfolding variant_by_codec
variant_by_codec-IsFirst m c v = (
  λ h. first-IsFirst _ v m.variants (sym (by_codec-eq-first c m.variants) ∙ h),
  λ h. by_codec-eq-first c m.variants ∙ IsFirst-first _ v h,
)

-- A variant that has run its course.
abbrev pub IsTerminal : Variant → Type 0
IsTerminal v = (v.status ≡ VariantStatus.done) ⊎ (v.status ≡ VariantStatus.failed)

all_terminal_iff : (vs : List Variant) → (all_terminal vs ≡ true) ↔ All IsTerminal vs
unfolding all_terminal
all_terminal_iff [] = ground arith
all_terminal_iff (v ∷ vs) = ground (arith, all_terminal_iff vs)

pub has_done-eq-best : (vs : List Variant) → (has_done vs ≡ false) ↔ (best vs ≡ none)
unfolding has_done best
has_done-eq-best [] = ground arith
has_done-eq-best (v ∷ vs) = ground (arith, has_done-eq-best vs)

pub All-failed :
    (vs : List Variant)
    → all_terminal vs ≡ true
    → best vs ≡ none
    → All (λ v. v.status ≡ VariantStatus.failed) vs
unfolding all_terminal best
All-failed [] h n = tt
All-failed (v ∷ vs) h n = ground (arith, All-failed vs)

-- The three questions that the worker asks agree: all variants are terminal exactly when each is
-- done or failed; there is a best variant exactly when one is done; and where all are terminal and
-- there is no best one, every variant has failed.
pub all_variants_terminal-best_variant :
    (m : Media)
    → ((all_variants_terminal m ≡ true) ↔ All IsTerminal m.variants)
      × ((has_done_variant m ≡ false) ↔ (best_variant m ≡ none))
      × (all_variants_terminal m ≡ true
          → best_variant m ≡ none
          → All (λ v. v.status ≡ VariantStatus.failed) m.variants)
unfolding all_variants_terminal has_done_variant best_variant
all_variants_terminal-best_variant m =
    (all_terminal_iff m.variants, has_done-eq-best m.variants, All-failed m.variants)
