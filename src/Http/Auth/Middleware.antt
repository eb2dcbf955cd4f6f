-- ===== src/Http/Auth/Middleware.antt =====
-- AuthMiddleware: who gets past it.
use sharm.Common.{
  ◌≡◌, refl, ◌∙◌, ap, subst, ◌⊎◌, Bool, true, false, some, Text, inl, inr, Option-cases,
}
use sharm.Domain.{User}
use sharm.Domain.Errors.{plain}
use sharm.Domain.Errors
use sharm.Store.Users.{has_user}
use sharm.World.{World, Outcome, ok, err, panic, call, next_outcome, later_outcomes, monad}
use sharm.Auth.{validate_token}
use sharm.Auth.Token.{IsGood, token_of, validate_token-IsGood}
use sharm.Http.Exchange.{Request, Exchange, Handler, after, calling}
use sharm.Http.Auth.{
  Settings, cookie_name, has_user_call, with_user, with_cookie, with_account, auth_middleware,
}

-- That handlers which differ only in what comes next answer alike.
abbrev pub IsRefused : ((User → Handler) → Exchange) → Type 0
IsRefused answer = (next other : User → Handler) → answer next ≡ answer other

module _ (settings : Settings) (r : Request) where
  open settings use {crypto, secret_key}

  with_user-cases :
      (x : Exchange) (p : Outcome User × World)
      → ((user : User) × (p.0 ≡ ok user)
          × ((next : User → Handler)
              → after x p (with_user settings next r) ≡ next user r (record x { world = p.1 })))
        ⊎ IsRefused (λ next. after x p (with_user settings next r))
  unfolding with_user
  with_user-cases x (ok user, w) = inl (user, refl, λ next. refl)
  with_user-cases x (err e, w) = inr (λ next other. refl)
  with_user-cases x (panic, w) = inr (λ next other. refl)

  -- The world in which the handler behind the middleware starts.
  abbrev pub world_after_token : Text → World → World
  world_after_token token w = (validate_token crypto secret_key token w).1

  IsLetIn : World → Exchange → ((User → Handler) → Exchange) → Type 0
  IsLetIn w x answer =
      (user : User) × (token : Text) × (r.cookie cookie_name ≡ some token)
      × ((validate_token crypto secret_key token w).0 ≡ ok user)
      × ((next : User → Handler)
          → answer next ≡ next user r (record x { world = world_after_token token w }))

  with_cookie-cases :
      (x : Exchange)
      → IsLetIn x.world x (λ next. with_cookie settings next r (r.cookie cookie_name) x)
        ⊎ IsRefused (λ next. with_cookie settings next r (r.cookie cookie_name) x)
  unfolding with_cookie calling IsLetIn
  with_cookie-cases x = elim (Option-cases (r.cookie cookie_name)) [
    | inl missing ↦ inr (λ next other. rw missing refl)
    | inr (token, found) ↦
        elim (with_user-cases x (validate_token crypto secret_key token x.world)) [
          | inl (user, valid, h) ↦ inl (user, token, found, valid, λ next. rw found (h next))
          | inr h ↦ inr (λ next other. rw found (h next other))
        ]
  ]

  with_account-cases :
      (x : Exchange) (p : Outcome Bool × World)
      → ((p.0 ≡ ok true) × IsLetIn p.1 x (λ next. after x p (with_account settings next r)))
        ⊎ IsRefused (λ next. after x p (with_account settings next r))
  unfolding with_account IsLetIn
  with_account-cases x (ok true, w) = elim (with_cookie-cases (record x { world = w })) [
    | inl h ↦ inl (refl, h)
    | inr h ↦ inr h
  ]
  with_account-cases x (ok false, w) = inr (λ next other. refl)
  with_account-cases x (err e, w) = inr (λ next other. refl)
  with_account-cases x (panic, w) = inr (λ next other. refl)

  after_check : World → World
  after_check w = record w { outcomes = later_outcomes w.outcomes }

  has_user_call_lem :
      (w : World)
      → (has_user_call w).0 ≡ ok true
      → (has_user w.db ≡ true) × ((has_user_call w).1 ≡ after_check w)
  unfolding monad after_check
  has_user_call_lem w h = elim (Option-cases (next_outcome w.outcomes)) [
    | inl up ↦
        let reads : (has_user_call w).0 ≡ ok (has_user w.db) = rw (up, call) refl in
        (cc (h, reads), rw (up, call) refl)
    | inr (e, down) ↦
        let failed : (has_user_call w).0 ≡ err (Errors.outside e) = rw (down, call) refl in
        absurd (cc (h, failed))
  ]

  IsGood-after_check :
      (timestamp user_id : Text) (user : User) (w : World)
      → IsGood crypto secret_key timestamp user_id user (after_check w)
      → IsGood crypto secret_key timestamp user_id user w
  unfolding after_check
  IsGood-after_check timestamp user_id user w g = record {
    id = g.id;
    id_parsed = g.id_parsed;
    found = g.found;
    ts = g.ts;
    ts_parsed = g.ts_parsed;
    in_time = g.in_time;
  }

  -- What has to hold of a request for the next handler to be called, and how it is called.
  pub record IsAdmitted (x : Exchange) : Type 0 where
    pub user : User
    pub timestamp : Text
    pub user_id : Text
    pub registered : has_user x.world.db ≡ true
    pub sent : r.cookie cookie_name ≡ some (token_of crypto secret_key timestamp user_id)
    pub good : IsGood crypto secret_key timestamp user_id user x.world
    pub world : World
    pub goes_on :
        (next : User → Handler)
        → auth_middleware settings next r x ≡ next user r (record x { world = world })

  -- However the calls to the outside end, AuthMiddleware either answers without the next handler, or
  -- there is an account, the request has a cookie with the signed token of a user that has not
  -- expired, and the answer is that of the next handler, called for this user.
  pub auth_middleware-cases :
      (x : Exchange) → IsAdmitted x ⊎ IsRefused (λ next. auth_middleware settings next r x)
  unfolding auth_middleware calling IsLetIn
  auth_middleware-cases x = elim (with_account-cases x (has_user_call x.world)) [
    | inr h ↦ inr h
    | inl (registers, let_in) ↦
        let (user, token, found, valid, h) = let_in in
        let (registered, same) = has_user_call_lem x.world registers in
        let (timestamp, user_id, signed, good) =
          validate_token-IsGood crypto secret_key token user (has_user_call x.world).1 valid in
        inl (record {
          user = user;
          timestamp = timestamp;
          user_id = user_id;
          registered = registered;
          sent = found ∙ ap (λ t. some t) signed;
          good =
              IsGood-after_check timestamp user_id user x.world
                (subst (λ w. IsGood crypto secret_key timestamp user_id user w) same good);
          world = world_after_token token (has_user_call x.world).1;
          goes_on = h;
        })
  ]
