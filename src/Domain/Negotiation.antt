-- ===== src/Domain/Negotiation.antt =====
-- media.go: what the choice by an Accept header gives.
use sharm.Common.{
  ◌≡◌, refl, sym, ◌∙◌, subst, ◌⊎◌, Bool, true, false, Option, none, some, List, [], ◌∷◌, Text, ◌==◌,
  text_eq, text_beq_iff, if◌then◌else◌, Bool-cases, inl, inr, All, All-append, All-map,
}
use sharm.Golang.Strings.{trim_space}
use sharm.Domain.{Variant, Media}
use sharm.Domain.Variants.{is_done, best_variant, best}
use sharm.Domain.Accept.{
  Floats, AcceptEntry, Candidate, codec_mime, consider, candidates, choose, chosen, parse_accept,
  best_quality, best_variant_for_accept,
}

-- A variant of a list that is done.
abbrev pub IsDoneOf : Variant → List Variant → Type 0
IsDoneOf v [] = ⊥
IsDoneOf v (w ∷ vs) = ((v ≡ w) × (is_done v.status ≡ true)) ⊎ IsDoneOf v vs

best-IsDoneOf : (vs : List Variant) (v : Variant) → best vs ≡ some v → IsDoneOf v vs
unfolding best
best-IsDoneOf [] v h = absurd (cc h)
best-IsDoneOf (w ∷ vs) v h = elim (Bool-cases (is_done w.status)) [
  | inl done ↦
      let first : best (w ∷ vs) ≡ some w = rw done refl in
      let same : v ≡ w = cc (h, first) in inl (same, rw same done)
  | inr undone ↦
      let rest : best (w ∷ vs) ≡ best vs = rw undone refl in inr (best-IsDoneOf vs v (sym rest ∙ h))
]

module _ (floats : Floats) where
  abbrev IsDoneCandidate : List Variant → Candidate floats → Type 0
  IsDoneCandidate vs c = IsDoneOf c.variant vs

  considered :
      (entries : List (AcceptEntry floats)) (w : Variant) (vs : List Variant)
      → is_done w.status ≡ true
      → (mime : Option Text) → All (IsDoneCandidate (w ∷ vs)) (consider floats entries w mime)
  unfolding consider
  considered entries w vs done none = tt
  considered entries w vs done (some mime) =
      elim (Bool-cases (floats.is_negative (best_quality floats mime floats.minus_one entries))) [
        | inl refused ↦ rw refused tt
        | inr taken ↦ rw taken (inl (refl, done), tt)
      ]

  candidates-IsDoneOf :
      (entries : List (AcceptEntry floats)) (vs : List Variant)
      → All (IsDoneCandidate vs) (candidates floats entries vs)
  unfolding candidates
  candidates-IsDoneOf entries [] = tt
  candidates-IsDoneOf entries (w ∷ vs) =
      let later =
        All-map (λ c h. inr h) (candidates floats entries vs) (candidates-IsDoneOf entries vs) in
      elim (Bool-cases (is_done w.status)) [
        | inr undone ↦ rw undone later
        | inl done ↦ rw done (
            All-append (IsDoneCandidate (w ∷ vs)) _ _
              (considered entries w vs done (codec_mime w.codec)) later)
      ]

  either :
      (b : Bool) (P : Candidate floats → Type 0) (c d : Candidate floats)
      → P c
      → P d
      → P (if b then d else c)
  either true P c d h k = k
  either false P c d h k = h

  choose-All :
      (P : Candidate floats → Type 0) (cs : List (Candidate floats)) (c : Candidate floats)
      → P c
      → All P cs
      → P (choose floats c cs)
  unfolding choose
  choose-All P [] c h a = h
  choose-All P (d ∷ cs) c h a = choose-All P cs _ (either _ P c d h a.0) a.1

  chosen-IsDoneOf :
      (vs : List Variant) (cs : List (Candidate floats)) (v : Variant)
      → All (IsDoneCandidate vs) cs
      → chosen floats cs ≡ some v
      → IsDoneOf v vs
  unfolding chosen
  chosen-IsDoneOf vs [] v a h = absurd (cc h)
  chosen-IsDoneOf vs (c ∷ cs) v a h =
      let same : (choose floats c cs).variant ≡ v = cc h in
      subst (λ u. IsDoneOf u vs) same (choose-All (IsDoneCandidate vs) cs c a.0 a.1)

  -- A variant that is chosen for an Accept header is one of the media's that is done; for a blank
  -- header it is the best variant.
  pub best_variant_for_accept-IsDoneOf :
      (m : Media) (accept : Text)
      → ((v : Variant) → best_variant_for_accept floats m accept ≡ some v → IsDoneOf v m.variants)
        × (trim_space accept ≡ [] → best_variant_for_accept floats m accept ≡ best_variant m)
  unfolding best_variant_for_accept best_variant
  best_variant_for_accept-IsDoneOf m accept =
      let given = trim_space accept in
      let cs = candidates floats (parse_accept floats given) m.variants in
      (
        λ v h. elim (Bool-cases (given == [])) [
          | inl blank ↦
              let same : best_variant_for_accept floats m accept ≡ best m.variants =
                rw blank refl in
              best-IsDoneOf m.variants v (sym same ∙ h)
          | inr there ↦
              let same : best_variant_for_accept floats m accept ≡ chosen floats cs =
                rw there refl in
              chosen-IsDoneOf m.variants cs v
                (candidates-IsDoneOf (parse_accept floats given) m.variants) (sym same ∙ h)
        ],
        λ blank. rw ((text_beq_iff given []).1 blank) refl,
      )
