-- ===== src/Domain/Errors.antt =====
-- errors.go and the errors of Go: which error it is, and its text.
use sharm.Common.{◌≡◌, refl, ◌⊎◌, inl, inr, ◌++◌, Text, text}

pub data Error : Type 0 where
  not_found expired : Error
  -- A constraint of the schema does not hold.
  constraint : Error
  -- An error of something outside the program, with its text.
  outside : Text → Error
  -- fmt.Errorf(prefix + ": %w", err)
  wrapped : Text → Error → Error
  -- fmt.Errorf(text)
  plain : Text → Error

-- err.Error()
unfoldable pub message : Error → Text
message not_found = text "resource not found"
message expired = text "media has expired"
message constraint = text "constraint failed"
message (outside t) = t
message (wrapped prefix e) = prefix ++ text ": " ++ message e
message (plain t) = t

pub data Result {ℓ} (A : Type ℓ) : Type ℓ where
  ok : A → Result A
  err : Error → Result A

pub Result-cases {ℓ} :
    {A : Type ℓ} (r : Result A) → ((a : A) × (r ≡ ok a)) ⊎ ((e : Error) × (r ≡ err e))
Result-cases (ok a) = inl (a, refl)
Result-cases (err e) = inr (e, refl)

-- That a result is no error.
abbrev pub IsOk {ℓ} : {A : Type ℓ} → Result A → Type 0
IsOk (ok a) = Unit
IsOk (err e) = ⊥
