-- ===== src/Auth/Passwords.antt =====
-- auth.go: the strength of passwords, and a change of the password.
use sharm.Common.{
  ℕ, ◌≤◌, ◌≡◌, refl, sym, subst, ap, ◌∙◌, ◌↔◌, Bool, true, not, ◌&&◌, ◌||◌, none, some, List, [],
  ◌∷◌, Text, ◌==◌, nat_eq, text_eq, nat_beq_iff, length, any, arith, Bool-cases, Option-cases, inl,
  inr,
}
use sharm.Domain.{User}
use sharm.Domain.Errors.{Error, Result, Result-cases}
use sharm.Domain.Errors
use sharm.Store.{Db, select_one, update_where}
use sharm.Store.Users.{get_user, update_password, set_password}
use sharm.World.{World, ok, err, next_outcome, ◌>>=◌, monad}
use sharm.Auth.{Crypto, Unicode, wrong_password}
use sharm.Auth.Accounts.{
  Found, nothing_found, missing, see, see_all, validate_password_strength, validate_password,
  change_password,
}

module _ (unicode : Unicode) where
  open unicode use {runes, is_upper, is_lower, is_number, is_punct, is_symbol}

  -- The classes of a rune, each taken only where no earlier one applies.
  abbrev pub only_lower : ℕ → Bool
  only_lower r = not (is_upper r) && is_lower r

  abbrev pub only_number : ℕ → Bool
  only_number r = not (is_upper r) && not (is_lower r) && is_number r

  abbrev pub only_special : ℕ → Bool
  only_special r =
      not (is_upper r) && not (is_lower r) && not (is_number r) && (is_punct r || is_symbol r)

  see_all_lem :
      (f : Found) (rs : List ℕ)
      → ((see_all unicode f rs).upper ≡ (f.upper || any is_upper rs))
        × ((see_all unicode f rs).lower ≡ (f.lower || any only_lower rs))
        × ((see_all unicode f rs).number ≡ (f.number || any only_number rs))
        × ((see_all unicode f rs).special ≡ (f.special || any only_special rs))
  unfolding see_all see
  see_all_lem f [] = ground arith
  see_all_lem f (r ∷ rs) = ground (arith, see_all_lem (see unicode f r) rs)

  missing-nil :
      (f : Found)
      → (missing f ≡ [])
        ↔ ((f.upper ≡ true) × (f.lower ≡ true) × (f.number ≡ true) × (f.special ≡ true))
  unfolding missing
  missing-nil f = ground arith

  -- A password is accepted as strong exactly when it has at least eight bytes and a rune of each of
  -- the four classes, each class taken only where no earlier one applies.
  pub validate_password_strength_iff :
      (password : Text)
      → let rs = runes password in
        (validate_password_strength unicode password ≡ none) ↔ (
          (8 ≤ length password)
          × (any is_upper rs ≡ true)
          × (any only_lower rs ≡ true)
          × (any only_number rs ≡ true)
          × (any only_special rs ≡ true))
  unfolding validate_password_strength
  validate_password_strength_iff password =
      let seen = see_all_lem nothing_found (runes password) in
      let complete = missing-nil (see_all unicode nothing_found (runes password)) in
      ground (arith, seen, complete)

module _ (name hash : Text) (now : ℕ) (u : User) where
  select_one-update_where :
      (us : List User)
      → select_one (λ (v : User). v.username == name) us ≡ some u
      → select_one
          (λ (v : User). v.username == name)
          (update_where (λ (v : User). v.id == u.id) (set_password hash now) us)
        ≡ some (set_password hash now u)
  unfolding select_one update_where set_password
  select_one-update_where [] e = absurd (cc e)
  select_one-update_where (v ∷ vs) e = elim (Bool-cases (v.username == name)) [
    | inl mine ↦
        let same : v ≡ u = ground arith in
        rw (same, (nat_beq_iff u.id u.id).1 refl) (rw (← same, mine) refl)
    | inr other ↦ elim (Bool-cases (v.id == u.id)) [
      | inl shared ↦ rw (shared, other) (select_one-update_where vs (ground arith))
      | inr apart ↦ rw (apart, other) (select_one-update_where vs (ground arith))
    ]
  ]

  -- The row that is found by its name is found again, with its new hash.
  get_user-update_password :
      (db : Db)
      → get_user name db ≡ Errors.ok u
      → get_user name (update_password u.id hash now db) ≡ Errors.ok (set_password hash now u)
  unfolding get_user update_password
  get_user-update_password db h =
      elim (Option-cases (select_one (λ (v : User). v.username == name) db.users)) [
        | inl nobody ↦
            let r : get_user name db ≡ Errors.err Errors.not_found = rw nobody refl in
            absurd (cc (h, r))
        | inr (v, found) ↦
            let r : get_user name db ≡ Errors.ok v = rw found refl in
            let same : v ≡ u = cc (h, r) in
            rw (select_one-update_where db.users (found ∙ ap (λ x. some x) same)) refl
      ]

module _ (unicode : Unicode) (crypto : Crypto) where
  open crypto use {generate_from_password, compare_hash_and_password}

  -- What a successful change of the password has done.
  record Changed (name old new : Text) (w : World) (db : Db) : Type 0 where
    user : User
    hash : Text
    found : get_user name w.db ≡ Errors.ok user
    right : compare_hash_and_password user.password_hash old ≡ true
    made : generate_from_password new ≡ Errors.ok hash
    written : db ≡ update_password user.id hash w.now w.db

  change_password_lem :
      (name old new : Text) (w : World)
      → let r = change_password unicode crypto name old new (record w { outcomes = [] }) in
        r.0 ≡ ok tt → Changed name old new w r.1.db × (r.1.outcomes ≡ [])
  unfolding change_password monad
  change_password_lem name old new w h =
      let r = change_password unicode crypto name old new (record w { outcomes = [] }) in
      elim (Result-cases (get_user name w.db)) [
        | inr (e, lost) ↦ let failed : r.0 ≡ err e = rw lost refl in absurd (cc (h, failed))
        | inl (u, found) ↦ elim (Bool-cases (compare_hash_and_password u.password_hash old)) [
          | inr wrong ↦
              let failed : r.0 ≡ err wrong_password = rw (found, wrong) refl in
              absurd (cc (h, failed))
          | inl right ↦ elim (Option-cases (validate_password_strength unicode new)) [
            | inr (e, weak) ↦
                let failed : r.0 ≡ err e = rw (found, right, weak) refl in absurd (cc (h, failed))
            | inl strong ↦ elim (Result-cases (generate_from_password new)) [
              | inr (e, broken) ↦
                  let failed : r.0 ≡ err e = rw (found, right, strong, broken) refl in
                  absurd (cc (h, failed))
              | inl (hash, made) ↦ (
                record {
                  user = u;
                  hash = hash;
                  found = found;
                  right = right;
                  made = made;
                  written = rw (found, right, strong, made) refl;
                },
                rw (found, right, strong, made) refl,
              )
            ]
          ]
        ]
      ]

  validate_password_calm :
      (name password : Text) (u : User) (w : World)
      → w.outcomes ≡ []
      → get_user name w.db ≡ Errors.ok u
      → compare_hash_and_password u.password_hash password ≡ true
      → (validate_password unicode crypto name password w).0 ≡ ok tt
  unfolding validate_password monad
  validate_password_calm name password u w calm found right =
      rw (calm, next_outcome, ◌>>=◌, found, right) refl

  -- If bcrypt accepts a password against a hash that it made of that password, then after a
  -- successful change of the password, the new one is accepted, and before it the old one was; no
  -- call to the outside fails here.
  pub validate_password-change_password :
      ((password hash : Text)
        → generate_from_password password ≡ Errors.ok hash
        → compare_hash_and_password hash password ≡ true)
      → (name old new : Text) (w : World) → w.outcomes ≡ []
      → (change_password unicode crypto name old new w).0 ≡ ok tt
      → ((validate_password unicode crypto name old w).0 ≡ ok tt)
        × ((validate_password unicode crypto name new
              (change_password unicode crypto name old new w).1).0
            ≡ ok tt)
  unfolding set_password
  validate_password-change_password honest name old new w calm h =
      let c = change_password unicode crypto name old new in
      let (did, quiet) =
        subst
          (λ os.
            (c (record w { outcomes = os })).0 ≡ ok tt
            → Changed name old new w (c (record w { outcomes = os })).1.db
              × ((c (record w { outcomes = os })).1.outcomes ≡ []))
          (sym calm) (change_password_lem name old new w) h in
      let u' = set_password did.hash w.now did.user in
      (
        validate_password_calm name old did.user w calm did.found did.right,
        validate_password_calm name new u' (c w).1 quiet
            (rw did.written (get_user-update_password name did.hash w.now did.user w.db did.found))
            (honest new did.hash did.made),
      )
