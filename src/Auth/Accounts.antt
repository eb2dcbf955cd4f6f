-- ===== src/Auth/Accounts.antt =====
-- auth.go: the account and its password.
use sharm.Common.{
  ℕ, Bool, true, false, ◌||◌, Option, none, some, List, [], ◌∷◌, ◌++◌, Text, text, ◌==◌, nat_eq,
  text_eq, if◌then◌else◌, length, all, ltb,
}
use sharm.Domain.Errors.{Error, plain, wrapped, ok}
use sharm.Store.Users.{has_user, get_user, create_user, update_password}
use sharm.World.{M, pure, throw, ◌>>=◌, ◌>>◌, or_wrap, attempt, need, call, statement, write, query}
use sharm.World
use sharm.Auth.{Crypto, Unicode, user_exists, invalid_creds, wrong_password}

-- A check: its error, if it finds one.
abbrev pub refuse : {A : Type 0} → Option Error → M A → M A
refuse none m = m
refuse (some e) m = throw e

-- The classes that the switch on a rune of a password has found so far.
pub record Found : Type 0 where
  pub upper : Bool
  pub lower : Bool
  pub number : Bool
  pub special : Bool

abbrev pub nothing_found : Found
nothing_found = record { upper = false; lower = false; number = false; special = false }

-- formatMissingRequirements; the loop puts ", and " before the last of three or more.
unfoldable pub list_rest : List Text → Text
list_rest [] = []
list_rest (r ∷ []) = text ", and " ++ r
list_rest (r ∷ s ∷ rs) = text ", " ++ r ++ list_rest (s ∷ rs)

unfoldable pub format_missing_requirements : List Text → Text
unfolding list_rest
format_missing_requirements [] = []
format_missing_requirements (a ∷ []) = a
format_missing_requirements (a ∷ b ∷ []) = a ++ text " and " ++ b
format_missing_requirements (a ∷ b ∷ c ∷ rs) = a ++ list_rest (b ∷ c ∷ rs)

abbrev missing_if : Bool → Text → List Text
missing_if true what = []
missing_if false what = what ∷ []

unfoldable pub missing : Found → List Text
missing f =
    missing_if f.upper (text "uppercase letter")
    ++ missing_if f.lower (text "lowercase letter")
    ++ missing_if f.number (text "number")
    ++ missing_if f.special (text "special character")

abbrev strength_error : List Text → Option Error
strength_error [] = none
strength_error (m ∷ ms) =
    some (plain (text "must contain at least one " ++ format_missing_requirements (m ∷ ms)))

module _ (unicode : Unicode) where
  open unicode use {runes, is_letter, is_digit, is_upper, is_lower, is_number, is_punct, is_symbol}

  unfoldable pub is_name_rune : ℕ → Bool
  is_name_rune r = is_letter r || is_digit r || r == b'_' || r == b'-'

  -- validateUsername
  unfoldable pub validate_username : Text → Option Error
  unfolding is_name_rune
  validate_username username =
      if ltb (length username) 3
      then some (plain (text "must be at least 3 characters"))
      else if ltb 50 (length username)
      then some (plain (text "must be at most 50 characters"))
      else if all is_name_rune (runes username)
      then none
      else some (plain (text "must contain only letters, numbers, underscores, and hyphens"))

  -- The switch on one rune.
  unfoldable pub see : Found → ℕ → Found
  see f r =
      if is_upper r
      then record f { upper = true }
      else if is_lower r
      then record f { lower = true }
      else if is_number r
      then record f { number = true }
      else if is_punct r || is_symbol r
      then record f { special = true }
      else f

  unfoldable pub see_all : Found → List ℕ → Found
  see_all f [] = f
  see_all f (r ∷ rs) = see_all (see f r) rs

  -- validatePasswordStrength
  unfoldable pub validate_password_strength : Text → Option Error
  validate_password_strength password =
      if ltb (length password) 8
      then some (plain (text "must be at least 8 characters"))
      else strength_error (missing (see_all nothing_found (runes password)))

  abbrev pub username_error : Text → Option Error
  username_error username = elim (validate_username username) [
    | none ↦ none
    | some e ↦ some (wrapped (text "invalid username") e)
  ]

  module _ (crypto : Crypto) where
    open crypto use {generate_from_password, compare_hash_and_password}

    abbrev hashed : Text → M Text
    hashed password w = (World.lift (generate_from_password password), w)

    -- CreateUser
    unfoldable pub register : Text → Text → M (Unit {0})
    register username password = do
      has ← call (query (λ db. ok (has_user db)))
      if has
          then throw user_exists
          else refuse (username_error username) (
              refuse (validate_password_strength password)
                (do hash ← hashed password; call (statement (create_user username hash))))

    -- ValidatePassword
    unfoldable pub validate_password : Text → Text → M (Unit {0})
    validate_password username password = do
      found ← attempt (call (query (get_user username)))
      user ← need invalid_creds found
      if compare_hash_and_password user.password_hash password
          then pure tt
          else throw wrong_password

    -- ChangePassword
    unfoldable pub change_password : Text → Text → Text → M (Unit {0})
    change_password username old new = do
      user ← call (query (get_user username))
      if compare_hash_and_password user.password_hash old
          then refuse (validate_password_strength new)
              (do hash ← hashed new; call (write (λ now. update_password user.id hash now)))
          else throw wrong_password
