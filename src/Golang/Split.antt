-- ===== src/Golang/Split.antt =====
-- strings.Split with a separator of one byte.
use sharm.Common.{
  ℕ, ◌≡◌, refl, sym, ap, subst, ◌∙◌, Bool, false, List, [], ◌∷◌, ◌++◌, Text, ◌==◌, nat_eq,
  nat_beq_iff, any, arith, if◌then◌else◌, Bool-cases, inl, inr, All,
}

unfoldable pub push_byte : ℕ → ℕ → List Text → List Text
push_byte sep c [] = (c ∷ []) ∷ []
push_byte sep c (e ∷ es) = if c == sep then [] ∷ e ∷ es else (c ∷ e) ∷ es

unfoldable pub split : ℕ → Text → List Text
unfolding push_byte
split sep [] = [] ∷ []
split sep (c ∷ s) = push_byte sep c (split sep s)

abbrev pub holds : ℕ → Text → Bool
holds sep s = any (λ c. c == sep) s

-- A text without the separator is one part.
pub split_of_no_sep : (sep : ℕ) (s : Text) → holds sep s ≡ false → split sep s ≡ s ∷ []
unfolding split
split_of_no_sep sep [] h = refl
split_of_no_sep sep (c ∷ s) h = rw (split_of_no_sep sep s (ground arith)) (ground arith)

push_byte-cons :
    (sep c : ℕ) (es : List Text) → (f : Text) × (fs : List Text) × (push_byte sep c es ≡ f ∷ fs)
unfolding push_byte
push_byte-cons sep c [] = (c ∷ [], [], refl)
push_byte-cons sep c (e ∷ es) = elim (Bool-cases (c == sep)) [
  | inl hit ↦ ([], e ∷ es, rw hit refl)
  | inr miss ↦ (c ∷ e, es, rw miss refl)
]

pub split-cons : (sep : ℕ) (s : Text) → (e : Text) × (es : List Text) × (split sep s ≡ e ∷ es)
unfolding split
split-cons sep [] = ([], [], refl)
split-cons sep (c ∷ s) = push_byte-cons sep c (split sep s)

-- The first part ends at the first separator.
pub split-append :
    (sep : ℕ) (s t : Text) → holds sep s ≡ false → split sep (s ++ (sep ∷ t)) ≡ s ∷ split sep t
unfolding split
split-append sep [] t h =
    let (e, es, parts) = split-cons sep t in rw (parts, (nat_beq_iff sep sep).1 refl) refl
split-append sep (c ∷ s) t h = rw (split-append sep s t (ground arith)) (ground arith)

-- The parts of a split, put together again.
abbrev pub joined : ℕ → List Text → Text
joined sep [] = []
joined sep (e ∷ []) = e
joined sep (e ∷ f ∷ es) = e ++ (sep ∷ joined sep (f ∷ es))

joined-push_byte :
    (sep c : ℕ) (es : List Text) → joined sep (push_byte sep c es) ≡ c ∷ joined sep es
unfolding push_byte
joined-push_byte sep c [] = refl
joined-push_byte sep c (e ∷ []) = elim (Bool-cases (c == sep)) [
  | inl hit ↦ rw (hit, (nat_beq_iff c sep).0 hit) refl
  | inr miss ↦ rw miss refl
]
joined-push_byte sep c (e ∷ f ∷ es) = elim (Bool-cases (c == sep)) [
  | inl hit ↦ rw (hit, (nat_beq_iff c sep).0 hit) refl
  | inr miss ↦ rw miss refl
]

pub joined-split : (sep : ℕ) (s : Text) → joined sep (split sep s) ≡ s
unfolding split
joined-split sep [] = refl
joined-split sep (c ∷ s) =
    joined-push_byte sep c (split sep s) ∙ ap (λ t. c ∷ t) (joined-split sep s)

-- No part of a split holds the separator.
push_byte-free :
    (sep c : ℕ) (e : Text) (es : List Text)
    → All (λ e. holds sep e ≡ false) (e ∷ es)
    → All (λ e. holds sep e ≡ false) (push_byte sep c (e ∷ es))
unfolding push_byte
push_byte-free sep c e es h = elim (Bool-cases (c == sep)) [
  | inl hit ↦ rw hit (refl, (h.0, h.1))
  | inr miss ↦ rw miss (ground arith, h.1)
]

pub split-free : (sep : ℕ) (s : Text) → All (λ e. holds sep e ≡ false) (split sep s)
unfolding split
split-free sep [] = (refl, tt)
split-free sep (c ∷ s) =
    let (e, es, parts) = split-cons sep s in
    let h = subst (All (λ e. holds sep e ≡ false)) parts (split-free sep s) in
    subst (λ ls. All (λ e. holds sep e ≡ false) (push_byte sep c ls)) (sym parts)
      (push_byte-free sep c e es h)
