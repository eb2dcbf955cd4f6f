-- ===== src/Http/Auth/Setup.antt =====
-- SetupHandler: it makes the first account only.
use sharm.Common.{◌≡◌, refl, true, none, some, [], ◌∷◌, ◌++◌, text, text_eq, inl, inr, Option-cases}
use sharm.Store.Users.{has_user}
use sharm.World.{call, next_outcome, monad}
use sharm.Http.Exchange.{Request, Exchange, calling, writes, redirect, http_error, Write}
use sharm.Http.Auth.{Settings, without_account, setup_handler}

module _ (settings : Settings) (r : Request) where
  -- Once there is an account, the setup changes nothing: it sends the client to the login, or reports
  -- that the database could not be read.
  pub setup_handler-has_user :
      (x : Exchange)
      → has_user x.world.db ≡ true
      → let y = setup_handler settings r x in
        (y.world.db ≡ x.world.db)
        × (y.written
            ≡ x.written
              ++ ((elim (next_outcome x.world.outcomes) as (λ o. Write) [
                | none ↦ redirect (text "/login") 303
                | some e ↦ http_error (text "Internal server error") 500
              ])
                  ∷ []))
  unfolding setup_handler calling without_account writes monad
  setup_handler-has_user x h = elim (Option-cases (next_outcome x.world.outcomes)) [
    | inl up ↦ rw (up, call, h) (refl, refl)
    | inr (e, down) ↦ rw (down, call) (refl, refl)
  ]
