-- ===== src/Auth/Token.antt =====
-- auth.go: which tokens ValidateToken accepts.
use sharm.Common.{
  ◌≤◌, ◌≡◌, refl, sym, ◌∙◌, ap, ℤ, some, List, [], ◌∷◌, ◌++◌, Text, ◌==◌, nat_eq, text_eq,
  text_beq_iff, ltb, arith, Bool-cases, Option-cases, inl, inr,
}
use sharm.Golang.Decimal.{parse_int}
use sharm.Golang.Split.{split, joined, joined-split}
use sharm.Domain.{User}
use sharm.Domain.Errors.{Result-cases}
use sharm.Domain.Errors
use sharm.World.{World, ok, err, throw, ◌>>=◌, call, next_outcome, later_outcomes, monad}
use sharm.Auth.{
  Crypto, colon, expiration_time, get_user_by_signed_id, check_time, validate_parts, with_parts,
  validate_token, invalid_token, expired_token,
}

module _ (crypto : Crypto) (secret_key : Text) where
  open crypto use {sign}

  -- The text that is signed.
  abbrev pub payload : Text → Text → Text
  payload timestamp user_id = timestamp ++ (colon ∷ user_id)

  -- What has to hold of the parts of a token for it to be accepted for a user.
  pub record IsGood (timestamp user_id : Text) (user : User) (w : World) : Type 0 where
    pub id : ℤ
    pub id_parsed : parse_int user_id ≡ some id
    pub found : get_user_by_signed_id id w.db ≡ Errors.ok user
    pub ts : ℤ
    pub ts_parsed : parse_int timestamp ≡ some ts
    pub in_time : w.now ≤ expiration_time ts

  -- What is known of a world after a successful check of the time.
  check_time_lem :
      (timestamp : Text) (u user : User) (w : World)
      → (check_time crypto secret_key timestamp u w).0 ≡ ok user
      → (ts : ℤ) × (parse_int timestamp ≡ some ts) × (w.now ≤ expiration_time ts) × (u ≡ user)
  unfolding check_time monad
  check_time_lem timestamp u user w h = elim (Option-cases (parse_int timestamp)) [
    | inl bad ↦
        let r : (check_time crypto secret_key timestamp u w).0 ≡ err invalid_token =
          rw (bad, ◌>>=◌) refl in
        absurd (cc (h, r))
    | inr (ts, parsed) ↦ elim (Bool-cases (ltb (expiration_time ts) w.now)) [
      | inl late ↦
          let r : (check_time crypto secret_key timestamp u w).0 ≡ err expired_token =
            rw (parsed, ◌>>=◌, late) refl in
          absurd (cc (h, r))
      | inr fresh ↦
          let r : (check_time crypto secret_key timestamp u w).0 ≡ ok u =
            rw (parsed, ◌>>=◌, fresh) refl in
          (ts, parsed, ground arith, cc (h, r))
    ]
  ]

  later : World → World
  later w = record w { outcomes = later_outcomes w.outcomes }

  validate_parts_lem :
      (timestamp user_id signature : Text) (user : User) (w : World)
      → (validate_parts crypto secret_key timestamp user_id signature w).0 ≡ ok user
      → (signature ≡ sign secret_key (payload timestamp user_id)) × IsGood timestamp user_id user w
  unfolding validate_parts later monad
  validate_parts_lem timestamp user_id signature user w h =
      elim (Option-cases (parse_int user_id)) [
        | inl bad ↦
            let r : (validate_parts crypto secret_key timestamp user_id signature w).0
                ≡ err invalid_token =
              rw (bad, ◌>>=◌) refl in
            absurd (cc (h, r))
        | inr (id, parsed) ↦ elim (Option-cases (next_outcome w.outcomes)) [
          | inr (e, down) ↦
              let r : (validate_parts crypto secret_key timestamp user_id signature w).0
                  ≡ err invalid_token =
                rw (parsed, ◌>>=◌, call, down) refl in
              absurd (cc (h, r))
          | inl up ↦ elim (Result-cases (get_user_by_signed_id id w.db)) [
            | inr (e, lost) ↦
                let r : (validate_parts crypto secret_key timestamp user_id signature w).0
                    ≡ err invalid_token =
                  rw (parsed, ◌>>=◌, call, up, lost) refl in
                absurd (cc (h, r))
            | inl (u, found) ↦
                elim (Bool-cases (signature == sign secret_key (payload timestamp user_id))) [
                  | inr forged ↦
                      let r : (validate_parts crypto secret_key timestamp user_id signature w).0
                          ≡ err invalid_token =
                        rw (parsed, ◌>>=◌, call, up, found, forged) refl in
                      absurd (cc (h, r))
                  | inl genuine ↦
                      let r : (validate_parts crypto secret_key timestamp user_id signature w).0
                          ≡ (check_time crypto secret_key timestamp u (later w)).0 =
                        rw (parsed, ◌>>=◌, call, up, found, genuine) refl in
                      let (ts, ts_parsed, in_time, same) =
                        check_time_lem timestamp u user (later w) (sym r ∙ h) in
                      (
                        (text_beq_iff signature (sign secret_key (payload timestamp user_id))).0
                            genuine,
                        record {
                          id = id;
                          id_parsed = parsed;
                          found = found ∙ ap (λ x. Errors.ok x) same;
                          ts = ts;
                          ts_parsed = ts_parsed;
                          in_time = in_time;
                        },
                      )
                ]
          ]
        ]
      ]

  -- The token of a timestamp and a user's id.
  abbrev pub token_of : Text → Text → Text
  token_of timestamp user_id =
      timestamp ++ (colon ∷ (user_id ++ (colon ∷ sign secret_key (payload timestamp user_id))))

  with_parts_lem :
      (parts : List Text) (user : User) (w : World)
      → (with_parts crypto secret_key parts w).0 ≡ ok user
      → (timestamp user_id : Text) × (joined colon parts ≡ token_of timestamp user_id)
        × IsGood timestamp user_id user w
  unfolding with_parts throw
  with_parts_lem [] user w h = absurd (cc h)
  with_parts_lem (a ∷ []) user w h = absurd (cc h)
  with_parts_lem (a ∷ b ∷ []) user w h = absurd (cc h)
  with_parts_lem (a ∷ b ∷ c ∷ d ∷ es) user w h = absurd (cc h)
  with_parts_lem (timestamp ∷ user_id ∷ signature ∷ []) user w h =
      let (signed, good) = validate_parts_lem timestamp user_id signature user w h in
      (timestamp, user_id, rw signed refl, good)

  -- However its calls to the outside end, a token is accepted for a user only if it is the
  -- signed token of a timestamp and an id, the id is that of the user in the database, and the
  -- timestamp has not expired: no token is accepted without the secret key's signature.
  pub validate_token-IsGood :
      (token : Text) (user : User) (w : World)
      → (validate_token crypto secret_key token w).0 ≡ ok user
      → (timestamp user_id : Text) × (token ≡ token_of timestamp user_id)
        × IsGood timestamp user_id user w
  unfolding validate_token
  validate_token-IsGood token user w h =
      let (timestamp, user_id, same, good) = with_parts_lem (split colon token) user w h in
      (timestamp, user_id, sym (joined-split colon token) ∙ same, good)
