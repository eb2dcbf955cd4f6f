-- ===== src/Auth/RoundTrip.antt =====
-- auth.go: GenerateToken followed by ValidateToken.
use sharm.Common.{
  ℕ, ◌+◌, ◌*◌, ◌/◌, ◌≤◌, ◌<◌, ◌≡◌, refl, sym, pos, false, [], ◌∷◌, ◌++◌, Text, nat_eq, text_eq,
  text_beq_refl, ltb, arith, subst,
}
use sharm.Golang.Decimal.{
  format_int, int64_limit, parse_int-format_int, format_int-AreDigits, AreDigits,
}
use sharm.Golang.Split.{split, holds, split_of_no_sep, split-append}
use sharm.Domain.{User}
use sharm.Domain.Errors.{Result-cases}
use sharm.Domain.Errors
use sharm.Store.Users.{get_user, get_user_by_id}
use sharm.World.{World, ok, ◌>>=◌, monad}
use sharm.Auth.{
  Crypto, colon, epoch, unix, expiration_time, get_user_by_signed_id, generate_token, check_time,
  validate_parts, with_parts, validate_token,
}
use sharm.Auth.Token.{payload, token_of}

not_expired :
    (n now : ℕ)
    → n + epoch < int64_limit
    → now ≤ (n + epoch + 604800) * 1000000000
    → ltb (expiration_time (pos n)) now ≡ false
unfolding expiration_time
not_expired n now fits fresh = ground arith

module _ (crypto : Crypto) (secret_key : Text) where
  open crypto use {sign}

  AreDigits-holds : (s : Text) → AreDigits s → holds colon s ≡ false
  AreDigits-holds [] h = refl
  AreDigits-holds (c ∷ s) h = ground (arith, h.0, AreDigits-holds s h.1)

  split-token_of :
      (n m : ℕ)
      → holds colon (sign secret_key (payload crypto secret_key (format_int n) (format_int m)))
        ≡ false
      → split colon (token_of crypto secret_key (format_int n) (format_int m))
        ≡ format_int n
          ∷ format_int m
          ∷ sign secret_key (payload crypto secret_key (format_int n) (format_int m))
          ∷ []
  split-token_of n m h =
      let ts =
        split-append colon (format_int n)
          (format_int m
            ++ (colon ∷ sign secret_key (payload crypto secret_key (format_int n) (format_int m))))
          (AreDigits-holds (format_int n) (format_int-AreDigits n)) in
      let id =
        split-append colon (format_int m)
          (sign secret_key (payload crypto secret_key (format_int n) (format_int m)))
          (AreDigits-holds (format_int m) (format_int-AreDigits m)) in
      rw
        (
          ts,
          id,
          split_of_no_sep colon
              (sign secret_key (payload crypto secret_key (format_int n) (format_int m))) h,
        )
        refl

  generate_token_calm :
      (name : Text) (u : User) (w : World)
      → get_user name w.db ≡ Errors.ok u
      → (generate_token crypto secret_key name (record w { outcomes = [] })).0
        ≡ ok (token_of crypto secret_key (format_int (unix w.now)) (format_int u.id))
  unfolding generate_token monad
  generate_token_calm name u w found = rw (found, ◌>>=◌) refl

  validate_token_calm :
      (n : ℕ) (u : User) (w : World)
      → holds colon (sign secret_key (payload crypto secret_key (format_int n) (format_int u.id)))
        ≡ false
      → get_user_by_id u.id w.db ≡ Errors.ok u
      → u.id < int64_limit
      → n + epoch < int64_limit
      → w.now ≤ (n + epoch + 604800) * 1000000000
      → (validate_token crypto secret_key
          (token_of crypto secret_key (format_int n) (format_int u.id))
          (record w { outcomes = [] })).0
        ≡ ok u
  unfolding validate_token with_parts validate_parts check_time get_user_by_signed_id monad
  validate_token_calm n u w clean found small fits fresh =
      rw
        (
          split-token_of n u.id clean,
          parse_int-format_int u.id small,
          ◌>>=◌,
          found,
          text_beq_refl
              (sign secret_key (payload crypto secret_key (format_int n) (format_int u.id))),
          parse_int-format_int n (omega (arith, fits)),
          not_expired n w.now fits fresh,
        )
        refl

  -- A token that `GenerateToken` makes for a user is accepted for that user by `ValidateToken` for
  -- seven days, if the database still has the user under its id, the text of the signature holds
  -- no colon, the clock stands between the epoch and the end of its range, and no call fails.
  pub validate_token-generate_token :
      (name : Text) (u : User) (w v : World)
      → holds colon
          (sign secret_key (payload crypto secret_key (format_int (unix w.now)) (format_int u.id)))
        ≡ false
      → get_user name w.db ≡ Errors.ok u
      → get_user_by_id u.id v.db ≡ Errors.ok u
      → u.id < int64_limit
      → epoch * 1000000000 ≤ w.now
      → w.now / 1000000000 < int64_limit
      → v.now ≤ (w.now / 1000000000 + 604800) * 1000000000
      → w.outcomes ≡ []
      → v.outcomes ≡ []
      → (token : Text) × ((generate_token crypto secret_key name w).0 ≡ ok token)
        × ((validate_token crypto secret_key token v).0 ≡ ok u)
  unfolding unix
  validate_token-generate_token name u w v clean found kept small begun fits fresh calm_w calm_v =
      let token = token_of crypto secret_key (format_int (unix w.now)) (format_int u.id) in
      let age : unix w.now + epoch ≡ w.now / 1000000000 = omega arith in
      (
        token,
        subst
            (λ os.
              (generate_token crypto secret_key name (record w { outcomes = os })).0 ≡ ok token)
            (sym calm_w) (generate_token_calm name u w found),
        subst (λ os. (validate_token crypto secret_key token (record v { outcomes = os })).0 ≡ ok u)
            (sym calm_v)
            (validate_token_calm (unix w.now) u v clean kept small (omega (arith, age))
              (omega (arith, age))),
      )
