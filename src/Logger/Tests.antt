-- ===== src/Logger/Tests.antt =====
-- Texts for the log, and an example for the property.
use sharm.Common.{◌≡◌, refl, ◌∷◌, ◌++◌, Text, text, All}
use sharm.Golang.Utf8.{runes, encode_rune}
use sharm.Logger.{sanitize_for_log, escape_rune, IsPrinted, sanitize_for_log-IsPrinted}

-- An escape that would clear the screen.
clear_screen : sanitize_for_log (0x1b ∷ text "[2J") ≡ text "\\x1b[2J"
unfolding sanitize_for_log escape_rune runes encode_rune
clear_screen = refl

abbrev forged : Text
forged = text "ok" ++ (10 ∷ 0xC3 ∷ 0xA9 ∷ text "ADMIN")

sanitize_for_log-IsPrinted_example : All IsPrinted (sanitize_for_log forged)
sanitize_for_log-IsPrinted_example = sanitize_for_log-IsPrinted forged
