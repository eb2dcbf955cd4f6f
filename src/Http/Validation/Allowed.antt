-- ===== src/Http/Validation/Allowed.antt =====
-- filetype.go: which files are let through.
use sharm.Common.{
  length, ltb, nat_eq, ◌&&◌, ℕ, text_beq, arith, ◌||◌, ◌≡◌, ◌≢◌, ◌⊎◌, ◌↔◌, refl, Bool, true, false,
  [], ◌∷◌, Text, ◌==◌, text_eq, text_beq_iff, if◌then◌else◌, Bool-cases, inl, inr,
}
use mathlib.Core.Bool.{false≢true}
use sharm.Http.Validation.FileType.{
  four_at, byte_at, without_last_bit, is_allowed, detect_boxed, detect_custom_magic_bytes, classify,
}

unfoldable unknown_or_allowed : Text → Bool
unfolding is_allowed
unknown_or_allowed mime = mime == [] || is_allowed mime

either :
    (b : Bool) (x y : Text)
    → unknown_or_allowed x ≡ true
    → unknown_or_allowed y ≡ true
    → unknown_or_allowed (if b then x else y) ≡ true
either true x y h k = h
either false x y h k = k

unknown_or_allowed-detect_boxed : (buf : Text) → unknown_or_allowed (detect_boxed buf) ≡ true
unfolding unknown_or_allowed detect_boxed is_allowed text_beq
unknown_or_allowed-detect_boxed buf = either (ltb (length buf) 12) _ _ refl (
    either (four_at buf 0 b'R' b'I' b'F' b'F' && four_at buf 8 b'W' b'E' b'B' b'P') _ _ refl (
      either (four_at buf 4 b'f' b't' b'y' b'p') _ _
        (either (four_at buf 8 b'q' b't' b' ' b' ') _ _ refl refl) refl))

unknown_or_allowed-detect_custom_magic_bytes :
    (buf : Text) → unknown_or_allowed (detect_custom_magic_bytes buf) ≡ true
unfolding unknown_or_allowed detect_custom_magic_bytes is_allowed text_beq
unknown_or_allowed-detect_custom_magic_bytes buf =
    let second = without_last_bit (byte_at buf 1) in
    either (ltb (length buf) 4) _ _ refl (
      either (four_at buf 0 0x1A 0x45 0xDF 0xA3) _ _ refl (
        either (four_at buf 0 b'f' b'L' b'a' b'C') _ _ refl (
          either (byte_at buf 0 == 0xFF && (second == 0xFA || second == 0xF2)) _ _ refl (
            either (byte_at buf 0 == b'I' && byte_at buf 1 == b'D' && byte_at buf 2 == b'3') _ _
              refl (unknown_or_allowed-detect_boxed buf)))))

no_bytes : (c : ℕ) (buf : Text) → c ∷ buf ≢ []
no_bytes c buf h = absurd (cc h)

-- A type that is known is allowed.
is_allowed-known :
    (mime : Text) → unknown_or_allowed mime ≡ true → (mime == []) ≡ false → is_allowed mime ≡ true
unfolding unknown_or_allowed
is_allowed-known mime h known = ground arith

-- A file is let through exactly when it is not empty, and its first bytes are those of a format that
-- the code itself knows or have, by net/http, a type of the list.
pub classify_iff :
    (detect_content_type : Text → Text) (buf : Text)
    → (classify detect_content_type buf).1 ≡ true
      ↔ (buf ≢ [])
        × ((detect_custom_magic_bytes buf ≢ []) ⊎ (is_allowed (detect_content_type buf) ≡ true))
unfolding classify
classify_iff detect [] = (λ h. absurd (false≢true h), λ h. absurd (h.0 refl))
classify_iff detect (c ∷ buf) =
    let custom = detect_custom_magic_bytes (c ∷ buf) in
    elim (Bool-cases (custom == [])) [
      | inl none ↦ rw none (
        λ h. (no_bytes c buf, inr h),
        λ h. elim h.1 [ inl k ↦ absurd (k ((text_beq_iff custom []).0 none)) | inr k ↦ k ],
      )
      | inr known ↦ rw known (
        λ h. (no_bytes c buf, inl (λ e. absurd (cc (known, (text_beq_iff custom []).1 e)))),
        λ h. is_allowed-known custom (unknown_or_allowed-detect_custom_magic_bytes (c ∷ buf)) known,
      )
    ]
