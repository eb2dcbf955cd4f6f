-- ===== src/Auth/Registration.antt =====
-- auth.go: CreateUser, once and again.
use sharm.Common.{
  ◌≡◌, refl, sym, subst, true, false, List, [], ◌∷◌, ◌++◌, Text, ◌==◌, text_eq, length, any, ltb,
  Bool-cases, Option-cases, inl, inr, arith,
}
use sharm.Domain.{User}
use sharm.Domain.Errors.{Result-cases}
use sharm.Domain.Errors
use sharm.Store.Users.{has_user, create_user}
use sharm.World.{World, ok, err, ◌>>=◌, next_outcome, monad}
use sharm.Auth.{Crypto, Unicode, user_exists}
use sharm.Auth.Accounts.{username_error, validate_password_strength, register}

length-append_one : {A : Type 0} (xs : List A) (x : A) → ltb 0 (length (xs ++ (x ∷ []))) ≡ true
length-append_one [] x = refl
length-append_one (y ∷ xs) x = ground arith

module _ (unicode : Unicode) (crypto : Crypto) where
  open crypto use {generate_from_password}

  -- What the table of users is like when an account was created.
  register_lem :
      (name password : Text) (w : World)
      → let r = register unicode crypto name password (record w { outcomes = [] }) in
        r.0 ≡ ok tt → (has_user w.db ≡ false) × (has_user r.1.db ≡ true) × (r.1.outcomes ≡ [])
  unfolding register create_user has_user monad
  register_lem name password w h =
      let r = register unicode crypto name password (record w { outcomes = [] }) in
      elim (Bool-cases (has_user w.db)) [
        | inl taken ↦ let failed : r.0 ≡ err user_exists = rw taken refl in absurd (cc (h, failed))
        | inr free ↦ elim (Option-cases (username_error unicode name)) [
          | inr (e, bad) ↦ let failed : r.0 ≡ err e = rw (free, bad) refl in absurd (cc (h, failed))
          | inl named ↦ elim (Option-cases (validate_password_strength unicode password)) [
            | inr (e, weak) ↦
                let failed : r.0 ≡ err e = rw (free, named, weak) refl in absurd (cc (h, failed))
            | inl strong ↦ elim (Result-cases (generate_from_password password)) [
              | inr (e, broken) ↦
                  let failed : r.0 ≡ err e = rw (free, named, strong, broken) refl in
                  absurd (cc (h, failed))
              | inl (hash, made) ↦
                  elim (Bool-cases (any (λ (v : User). v.username == name) w.db.users)) [
                    | inl twice ↦
                        let failed : r.0 ≡ err Errors.constraint =
                          rw (free, named, strong, made, twice) refl in
                        absurd (cc (h, failed))
                    | inr fresh ↦ (
                      free,
                      rw (free, named, strong, made, fresh) (length-append_one w.db.users _),
                      rw (free, named, strong, made) refl,
                    )
                  ]
            ]
          ]
        ]
      ]

  register_taken :
      (name password : Text) (w : World)
      → w.outcomes ≡ []
      → has_user w.db ≡ true
      → (register unicode crypto name password w).0 ≡ err user_exists
  unfolding register monad
  register_taken name password w calm taken = rw (calm, next_outcome, ◌>>=◌, taken) refl

  -- Where no call to the outside fails, an account can be created only while there is no user, and
  -- once one has been created, every further attempt is refused.
  pub register-register :
      (name password other_name other_password : Text) (w : World)
      → w.outcomes ≡ []
      → (register unicode crypto name password w).0 ≡ ok tt
      → (has_user w.db ≡ false)
        × ((register unicode crypto other_name other_password
              (register unicode crypto name password w).1).0
            ≡ err user_exists)
  register-register name password other_name other_password w calm h =
      let c = register unicode crypto name password in
      let (free, taken, quiet) =
        subst
          (λ os.
            (c (record w { outcomes = os })).0 ≡ ok tt
            → (has_user w.db ≡ false)
              × (has_user (c (record w { outcomes = os })).1.db ≡ true)
              × ((c (record w { outcomes = os })).1.outcomes ≡ []))
          (sym calm) (register_lem name password w) h in
      (free, register_taken other_name other_password (c w).1 quiet taken)
