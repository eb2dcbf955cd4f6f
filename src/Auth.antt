-- ===== src/Auth.antt =====
-- internal/service/auth.go: accounts, passwords and session tokens. bcrypt, the HMAC and the tables
-- of Unicode are parameters.
pub mod Token
pub mod RoundTrip
pub mod Accounts
pub mod Passwords
pub mod Registration
pub mod Toy
mod Tests
use sharm.Common.{
  ℕ, ◌+◌, ◌-◌, ◌*◌, ◌/◌, suc, ℤ, pos, negsuc, Bool, true, false, not, ◌||◌, Option, none, some,
  List, [], ◌∷◌, ◌++◌, Text, text, ◌==◌, nat_eq, text_eq, if◌then◌else◌, length, ltb, leb,
}
use sharm.Golang.Decimal.{format_int, parse_int, int64_limit}
use sharm.Golang.Split.{split}
use sharm.Domain.{User}
use sharm.Domain.Errors.{Error, plain, wrapped, not_found}
use sharm.Domain.Errors
use sharm.Store.{Db}
use sharm.Store.Users.{has_user, get_user, get_user_by_id, create_user, update_password}
use sharm.World.{
  M, pure, throw, ◌>>=◌, ◌>>◌, or_wrap, attempt, need, call, statement, write, query, clock,
}

-- golang.org/x/crypto/bcrypt, and HMAC-SHA256 in the URL alphabet of base64.
pub record Crypto : Type 0 where
  pub generate_from_password : Text → Errors.Result Text
  pub compare_hash_and_password : Text → Text → Bool
  pub sign : Text → Text → Text

-- The runes of a string, and the classes of package unicode.
pub record Unicode : Type 0 where
  pub runes : Text → List ℕ
  pub is_letter : ℕ → Bool
  pub is_digit : ℕ → Bool
  pub is_upper : ℕ → Bool
  pub is_lower : ℕ → Bool
  pub is_number : ℕ → Bool
  pub is_punct : ℕ → Bool
  pub is_symbol : ℕ → Bool

abbrev pub invalid_token : Error
invalid_token = plain (text "invalid token")

abbrev pub expired_token : Error
expired_token = plain (text "expired token")

abbrev pub invalid_creds : Error
invalid_creds = plain (text "invalid credentials")

abbrev pub user_exists : Error
user_exists = plain (text "user already exists")

abbrev pub wrong_password : Error
wrong_password = plain (text "wrong password")

abbrev colon : ℕ
colon = b':'

-- Seconds between the zero time of Go and the Unix epoch.
abbrev pub epoch : ℕ
epoch = 62135596800

-- time.Time.Unix, for a time after the epoch.
unfoldable pub unix : ℕ → ℕ
unix now = now / 1000000000 - epoch

-- time.Unix(ts, 0).Add(7 * 24 * time.Hour). Seconds that overflow, like those before the zero time,
-- are in the past whatever the time is, which 0 stands for.
unfoldable pub expiration_time : ℤ → ℕ
expiration_time (pos ts) =
    if leb int64_limit (ts + epoch) then 0 else (ts + epoch + 604800) * 1000000000
expiration_time (negsuc n) = (epoch + 604800 - suc n) * 1000000000

-- The user of a signed key: keys are positive.
unfoldable pub get_user_by_signed_id : ℤ → Db → Errors.Result User
get_user_by_signed_id (pos id) db = get_user_by_id id db
get_user_by_signed_id (negsuc n) db = Errors.err not_found

module _ (crypto : Crypto) (secret_key : Text) where
  open crypto use {sign}

  -- GenerateToken
  unfoldable pub generate_token : Text → M Text
  generate_token username = do
    user ← call (query (get_user username))
    now ← clock
    let timestamp = format_int (unix now)
    let user_id = format_int user.id
    let signature = sign secret_key (timestamp ++ (colon ∷ user_id))
    pure (timestamp ++ (colon ∷ (user_id ++ (colon ∷ signature))))

  -- ValidateToken, after the signature.
  unfoldable pub check_time : Text → User → M User
  check_time timestamp user = do
    ts ← need invalid_token (parse_int timestamp)
    now ← clock
    if ltb (expiration_time ts) now then throw expired_token else pure user

  -- ValidateToken, on the three parts.
  unfoldable pub validate_parts : Text → Text → Text → M User
  validate_parts timestamp user_id signature = do
    id ← need invalid_token (parse_int user_id)
    found ← attempt (call (query (get_user_by_signed_id id)))
    user ← need invalid_token found
    if signature == sign secret_key (timestamp ++ (colon ∷ user_id))
        then check_time timestamp user
        else throw invalid_token

  unfoldable pub with_parts : List Text → M User
  with_parts (timestamp ∷ user_id ∷ signature ∷ []) = validate_parts timestamp user_id signature
  with_parts _ = throw invalid_token

  -- ValidateToken
  unfoldable pub validate_token : Text → M User
  validate_token token = with_parts (split colon token)
