-- ===== src/Logger.antt =====
-- internal/infrastructure/logger/sanitize.go: texts for the log.
mod Tests
use sharm.Common.{
  ℕ, ◌+◌, ◌-◌, ◌/◌, ◌%◌, ◌≤◌, ◌≡◌, ◌≢◌, refl, Bool, true, false, ◌||◌, List, [], ◌∷◌, ◌++◌, Text,
  text, ◌==◌, nat_eq, if◌then◌else◌, ltb, All, All-append, All-map, arith, Bool-cases, inl, inr,
}
use sharm.Golang.Utf8.{runes, encode_rune, encode_rune_lem}

-- A digit of the verb %x.
abbrev hex_digit : ℕ → ℕ
hex_digit d = if ltb d 10 then d + b'0' else d - 10 + b'a'

-- fmt.Sprintf("\\x%02x", r), for r below 256.
unfoldable hex_escape : ℕ → Text
hex_escape r = b'\\' ∷ b'x' ∷ hex_digit (r / 16) ∷ hex_digit (r % 16) ∷ []

-- The switch on a rune.
unfoldable pub escape_rune : ℕ → Text
unfolding hex_escape
escape_rune r =
    if r == 10
    then text "\\n"
    else if r == 13
    then text "\\r"
    else if r == 9
    then text "\\t"
    else if r == 0
    then text "\\x00"
    else if ltb r 32 || r == 127 || r == 0x1b
    then hex_escape r
    else encode_rune r

unfoldable escape_runes : List ℕ → Text
unfolding escape_rune
escape_runes [] = []
escape_runes (r ∷ rs) = escape_rune r ++ escape_runes rs

-- SanitizeForLog
unfoldable pub sanitize_for_log : Text → Text
unfolding escape_runes
sanitize_for_log s = escape_runes (runes s)

-- No control character of ASCII.
abbrev pub IsPrinted : ℕ → Type 0
IsPrinted c = (32 ≤ c) × (c ≢ 127)

wide-IsPrinted : (c : ℕ) → 0x80 ≤ c → IsPrinted c
wide-IsPrinted c h = ground arith

encode_rune-IsPrinted : (r : ℕ) → IsPrinted r → All IsPrinted (encode_rune r)
encode_rune-IsPrinted r h = elim (encode_rune_lem r) [
  | inl (ascii, same) ↦ rw same (h, tt)
  | inr wide ↦ All-map wide-IsPrinted (encode_rune r) wide
]

hex_escape-IsPrinted : (r : ℕ) → r ≤ 127 → All IsPrinted (hex_escape r)
unfolding hex_escape
hex_escape-IsPrinted r h = ground arith

either :
    (b : Bool) (x y : Text)
    → (b ≡ true → All IsPrinted x)
    → (b ≡ false → All IsPrinted y)
    → All IsPrinted (if b then x else y)
either true x y h k = h refl
either false x y h k = k refl

escape_rune-IsPrinted : (r : ℕ) → All IsPrinted (escape_rune r)
unfolding escape_rune
escape_rune-IsPrinted r =
    either (r == 10) _ _ (λ _. ground arith)
      (λ _.
        either (r == 13) _ _ (λ _. ground arith)
          (λ _.
            either (r == 9) _ _ (λ _. ground arith)
              (λ _.
                either (r == 0) _ _ (λ _. ground arith)
                  (λ _.
                    either (ltb r 32 || r == 127 || r == 0x1b) _ _
                      (λ h. hex_escape-IsPrinted r (ground arith))
                      (λ h. encode_rune-IsPrinted r (ground arith))))))

escape_runes-IsPrinted : (rs : List ℕ) → All IsPrinted (escape_runes rs)
unfolding escape_runes
escape_runes-IsPrinted [] = tt
escape_runes-IsPrinted (r ∷ rs) =
    All-append IsPrinted _ _ (escape_rune-IsPrinted r) (escape_runes-IsPrinted rs)

-- Whatever bytes a text has, no byte of what is logged in its place is a control character of ASCII.
pub sanitize_for_log-IsPrinted : (s : Text) → All IsPrinted (sanitize_for_log s)
unfolding sanitize_for_log
sanitize_for_log-IsPrinted s = escape_runes-IsPrinted (runes s)
