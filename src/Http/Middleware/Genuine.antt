-- ===== src/Http/Middleware/Genuine.antt =====
-- csrf.go: which requests carry a token that is valid.
use sharm.Common.{
  ℕ, zero, suc, length-take, length-drop, ◌≢◌, subst, ◌≡◌, ◌↔◌, ◌∙◌, refl, sym, ap, ◌⊎◌, Bool, true,
  false, not, ◌&&◌, Option, none, some, [], ◌∷◌, ◌++◌, Text, text, ◌==◌, text_eq, nat_eq,
  text_beq_iff, text_beq_refl, length, take, drop, length-append, arith, inl, inr, Bool-cases,
}
use mathlib.Core.Bool.{false≢true}
use sharm.Http.Exchange.{Request}
use sharm.Http.Middleware.{
  Csrf, csrf_cookie_name, token_size, is_safe_method, request_token, csrf_header_name,
  validate_decoded, validate_csrf_token, validate_against, validate_request,
}

take_whole : (s t : Text) → take (length s) (s ++ t) ≡ s
take_whole [] t = refl
take_whole (c ∷ s) t = ap (λ r. c ∷ r) (take_whole s t)

drop_whole : (s t : Text) → drop (length s) (s ++ t) ≡ t
drop_whole [] t = refl
drop_whole (c ∷ s) t = drop_whole s t

take-drop : (n : ℕ) (s : Text) → take n s ++ drop n s ≡ s
take-drop zero s = refl
take-drop (suc n) [] = refl
take-drop (suc n) (c ∷ s) = ap (λ r. c ∷ r) (take-drop n s)

all_true : (a b c : Bool) → (not a && b && c) ≡ true → (a ≡ false) × (b ≡ true) × (c ≡ true)
all_true a b c h = ground arith

module _ (csrf : Csrf) (secret_key : Text) where
  open csrf use {mac, encode, decode}

  pub validate_decoded-signed :
      (bytes : Text)
      → length bytes ≡ token_size
      → length (mac secret_key bytes) ≡ token_size
      → validate_decoded csrf secret_key (some (bytes ++ mac secret_key bytes)) ≡ true
  unfolding validate_decoded
  validate_decoded-signed bytes h k =
      let s = mac secret_key bytes in
      let whole : length (bytes ++ s) ≡ 64 = omega (arith, length-append bytes s) in
      let front = subst (λ n. take n (bytes ++ s) ≡ bytes) h (take_whole bytes s) in
      let back = subst (λ n. drop n (bytes ++ s) ≡ s) h (drop_whole bytes s) in
      rw (whole, front, back) (text_beq_refl s)

  -- A token with a valid signature: the encoding of 32 bytes and of the 32 bytes that sign them.
  abbrev pub IsSigned : Text → Type 0
  IsSigned token =
      (bytes : Text) × (length bytes ≡ 32)
      × (length (mac secret_key bytes) ≡ 32)
      × (decode token ≡ some (bytes ++ mac secret_key bytes))

  -- The token that a request has sent: that of its header, or that of its form if it has none there.
  abbrev pub HasSent : Request → Text → Type 0
  HasSent r token =
      (r.header (text "X-CSRF-Token") ≡ token)
      ⊎ ((r.header (text "X-CSRF-Token") ≡ []) × (r.form_value (text "csrf_token") ≡ token))

  -- A request that carries a valid token, in its cookie and as a header or in its form.
  abbrev pub IsGenuine : Request → Type 0
  IsGenuine r =
      (token : Text) × (r.cookie (text "csrf_token") ≡ some token)
      × (token ≢ [])
      × HasSent r token
      × IsSigned token

  -- A request that is to reach its route.
  abbrev pub IsAdmitted : Request → Type 0
  IsAdmitted r =
      ((r.method ≡ text "GET") ⊎ ((r.method ≡ text "HEAD") ⊎ (r.method ≡ text "OPTIONS")))
      ⊎ IsGenuine r

  validate_decoded-IsSigned :
      (token : Text) (decoded : Option Text)
      → decode token ≡ decoded
      → validate_decoded csrf secret_key decoded ≡ true
      → IsSigned token
  unfolding validate_decoded
  validate_decoded-IsSigned token none e h = absurd (false≢true h)
  validate_decoded-IsSigned token (some d) e h =
      let whole : length d ≡ 64 = ground arith in
      let signed : drop 32 d ≡ mac secret_key (take 32 d) =
        (text_beq_iff (drop 32 d) (mac secret_key (take 32 d))).0 (ground arith) in
      (
        take 32 d,
        omega (arith, length-take 32 d),
        subst (λ s. length s ≡ 32) signed (omega (arith, length-drop 32 d)),
        e ∙ ap (λ t. some t) (sym (take-drop 32 d) ∙ ap (λ t. take 32 d ++ t) signed),
      )

  IsSigned-validate_csrf_token :
      (token : Text) → IsSigned token → validate_csrf_token csrf secret_key token ≡ true
  unfolding validate_csrf_token
  IsSigned-validate_csrf_token token (bytes, size, signature, e) =
      rw e (validate_decoded-signed bytes size signature)

  request_token-HasSent : (r : Request) → HasSent r (request_token r)
  unfolding request_token
  request_token-HasSent r = elim (Bool-cases (r.header csrf_header_name == [])) [
    | inl blank ↦ rw blank (inr ((text_beq_iff (r.header csrf_header_name) []).0 blank, refl))
    | inr given ↦ rw given (inl refl)
  ]

  HasSent-request_token :
      (r : Request) (token : Text) → token ≢ [] → HasSent r token → request_token r ≡ token
  unfolding request_token
  HasSent-request_token r token there (inl header) =
      elim (Bool-cases (r.header csrf_header_name == [])) [
        | inl blank ↦
            absurd (there (sym header ∙ (text_beq_iff (r.header csrf_header_name) []).0 blank))
        | inr given ↦ rw given header
      ]
  HasSent-request_token r token there (inr (blank, form)) =
      rw ((text_beq_iff (r.header csrf_header_name) []).1 blank) form

  validate_against-IsGenuine :
      (r : Request) (cookie : Option Text)
      → r.cookie csrf_cookie_name ≡ cookie
      → validate_against csrf secret_key r cookie ≡ true
      → IsGenuine r
  unfolding validate_against validate_csrf_token
  validate_against-IsGenuine r none e h = absurd (false≢true h)
  validate_against-IsGenuine r (some token) e h =
      let t = request_token r in
      let (there, same, valid) =
        all_true (t == []) (t == token) (validate_csrf_token csrf secret_key t) h in
      let equal = (text_beq_iff t token).0 same in
      (
        t,
        e ∙ ap (λ u. some u) (sym equal),
        (λ e. absurd (cc (there, (text_beq_iff t []).1 e))),
        request_token-HasSent r,
        validate_decoded-IsSigned t (decode t) refl valid,
      )

  pub IsGenuine-validate_request :
      (r : Request) → IsGenuine r → validate_request csrf secret_key r ≡ true
  unfolding validate_request validate_against
  IsGenuine-validate_request r (token, cookie, there, sent, signed) =
      let same = HasSent-request_token r token there sent in
      let valid = IsSigned-validate_csrf_token token signed in
      elim (Bool-cases (token == [])) [
        | inl blank ↦ absurd (there ((text_beq_iff token []).0 blank))
        | inr given ↦ rw (cookie, validate_against, same, given, text_beq_refl token, valid) refl
      ]

  pub validate_request-IsGenuine :
      (r : Request) → validate_request csrf secret_key r ≡ true → IsGenuine r
  unfolding validate_request
  validate_request-IsGenuine r = validate_against-IsGenuine r (r.cookie csrf_cookie_name) refl

  pub safe_iff :
      (m : Text)
      → (is_safe_method m ≡ true) ↔ ((m ≡ text "GET") ⊎ ((m ≡ text "HEAD") ⊎ (m ≡ text "OPTIONS")))
  unfolding is_safe_method
  safe_iff m =
      let get = text_beq_iff m (text "GET") in
      let head = text_beq_iff m (text "HEAD") in
      let options = text_beq_iff m (text "OPTIONS") in ground arith
