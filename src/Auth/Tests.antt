-- ===== src/Auth/Tests.antt =====
-- Tokens and passwords of one user, with a toy signature and a toy hash.
use sharm.Common.{
  ◌≤◌, ◌≡◌, ◌↔◌, refl, true, false, none, ◌∷◌, ◌++◌, Text, text, text_beq, text_beq_refl, ◌==◌,
  text_eq, nat_eq, any, arith,
}
use sharm.Golang.Decimal.{format_int, parse_int}
use sharm.Golang.Split.{split}
use sharm.Domain.Errors
use sharm.Auth.Toy.{toy_hash, toy, ascii, alice, key, world}
use sharm.Store.{empty_db, select_one}
use sharm.Store.Users.{get_user, get_user_by_id}
use sharm.World.{World, ok, monad}
use sharm.Auth.{
  unix, generate_token, validate_token, with_parts, validate_parts, get_user_by_signed_id,
  check_time, expiration_time,
}
use sharm.Auth.Token.{token_of, IsGood, validate_token-IsGood}
use sharm.Auth.RoundTrip.{validate_token-generate_token}
use sharm.Auth.Accounts.{
  missing, see, see_all, validate_password_strength, validate_password, change_password,
}
use sharm.Auth.Passwords.{
  only_lower, only_number, only_special, validate_password_strength_iff,
  validate_password-change_password,
}
use sharm.Auth.{user_exists}
use sharm.World.{err}
use sharm.Auth.Accounts.{register, validate_username}
use sharm.Auth.Registration.{register-register}
use sharm.Store.Users.{has_user, create_user}

abbrev token : Text
token = token_of toy key (text "100") (text "1")

alice_found : get_user (text "alice") world.db ≡ Errors.ok alice
unfolding get_user select_one text_beq
alice_found = refl

alice_kept : get_user_by_id 1 world.db ≡ Errors.ok alice
unfolding get_user_by_id select_one
alice_kept = refl

token_accepted : (validate_token toy key token world).0 ≡ ok alice
unfolding validate_token with_parts split validate_parts monad parse_int get_user_by_signed_id
    get_user_by_id select_one text_beq check_time expiration_time
token_accepted = refl

validate_token-IsGood_example :
    (timestamp user_id : Text) × (token ≡ token_of toy key timestamp user_id)
    × IsGood toy key timestamp user_id alice world
validate_token-IsGood_example = validate_token-IsGood toy key token alice world token_accepted

signature_clean :
    any (λ c. c == b':') (toy.sign key (format_int (unix world.now) ++ (b':' ∷ format_int 1)))
    ≡ false
unfolding unix format_int
signature_clean = refl

validate_token-generate_token_example :
    (token : Text) × ((generate_token toy key (text "alice") world).0 ≡ ok token)
    × ((validate_token toy key token world).0 ≡ ok alice)
validate_token-generate_token_example =
    validate_token-generate_token toy key (text "alice") alice world world signature_clean
      alice_found alice_kept (omega arith) (omega arith) (omega arith) (omega arith) refl refl

validate_password_strength_iff_example :
    (validate_password_strength ascii (text "Abcdef1!") ≡ none) ↔ (
      (8 ≤ 8)
      × (any ascii.is_upper (text "Abcdef1!") ≡ true)
      × (any (only_lower ascii) (text "Abcdef1!") ≡ true)
      × (any (only_number ascii) (text "Abcdef1!") ≡ true)
      × (any (only_special ascii) (text "Abcdef1!") ≡ true))
validate_password_strength_iff_example = validate_password_strength_iff ascii (text "Abcdef1!")

toy_honest :
    (password hash : Text)
    → toy.generate_from_password password ≡ Errors.ok hash
    → toy.compare_hash_and_password hash password ≡ true
toy_honest password hash e =
    let same : toy_hash password ≡ hash = cc e in rw (← same) (text_beq_refl (toy_hash password))

password_changed :
    (change_password ascii toy (text "alice") (text "old") (text "Abcdef1!") world).0 ≡ ok tt
unfolding change_password monad get_user select_one text_beq validate_password_strength missing
    see_all see
password_changed = refl

validate_password-change_password_example :
    ((validate_password ascii toy (text "alice") (text "old") world).0 ≡ ok tt)
    × ((validate_password ascii toy
          (text "alice")
          (text "Abcdef1!")
          (change_password ascii toy (text "alice") (text "old") (text "Abcdef1!") world).1).0
        ≡ ok tt)
validate_password-change_password_example =
    validate_password-change_password ascii toy toy_honest (text "alice") (text "old")
      (text "Abcdef1!") world refl password_changed

-- The same world before any account was made.
abbrev vacant : World
vacant = record world { db = empty_db }

account_made : (register ascii toy (text "alice") (text "Abcdef1!") vacant).0 ≡ ok tt
unfolding register monad has_user validate_username validate_password_strength missing see_all see
    create_user
account_made = refl

register-register_example :
    (has_user empty_db ≡ false)
    × ((register ascii toy
          (text "bob")
          (text "Abcdef2?")
          (register ascii toy (text "alice") (text "Abcdef1!") vacant).1).0
        ≡ err user_exists)
register-register_example =
    register-register ascii toy (text "alice") (text "Abcdef1!") (text "bob") (text "Abcdef2?")
      vacant refl account_made
