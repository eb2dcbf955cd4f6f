-- ===== src/Golang/Decimal.antt =====
-- strconv: natural numbers in decimal.
use sharm.Common.{
  ℕ, zero, suc, ◌+◌, ◌-◌, ◌*◌, ◌/◌, ◌%◌, ◌^◌, ◌<◌, ◌≡◌, ◌≢◌, refl, ◌∙◌, ℤ, pos, negsuc, All, lt→ltb,
  ◌==◌, nat_eq, Bool, true, false, ◌&&◌, Option, none, some, [], ◌∷◌, Text, arith, if◌then◌else◌,
  ltb, leb, Bool-cases, inl, inr,
}

-- FormatInt(n, 10) for n ≥ 0: digits from the last one on, in front of those that are there. The
-- fuel n + 1 is enough, since each round divides n by ten.
show_from : ℕ → ℕ → Text → Text
show_from zero n seen = seen
show_from (suc fuel) n seen =
    let digit = b'0' + n % 10 in
    let more = show_from fuel (n / 10) (digit ∷ seen) in if ltb n 10 then digit ∷ seen else more

unfoldable pub format_int : ℕ → Text
unfolding show_from
format_int n = show_from (suc n) n []

abbrev pub is_digit : ℕ → Bool
is_digit c = leb b'0' c && leb c b'9'

unfoldable pub parse_from : ℕ → Text → Option ℕ
parse_from n [] = some n
parse_from n (c ∷ s) =
    let rest = parse_from (n * 10 + (c - b'0')) s in if is_digit c then rest else none

-- The unsigned part of ParseInt(s, 10, 64), before its range is checked.
unfoldable pub parse_digits : Text → Option ℕ
unfolding parse_from
parse_digits [] = none
parse_digits (c ∷ s) = parse_from 0 (c ∷ s)

-- The last digit of a number in front of what follows it.
parse_from-digit :
    (k n : ℕ) (seen : Text)
    → k * 10 + n % 10 ≡ n
    → parse_from k ((b'0' + n % 10) ∷ seen) ≡ parse_from n seen
unfolding parse_from
parse_from-digit k n seen h =
    let value : k * 10 + (b'0' + n % 10 - b'0') ≡ n = omega arith in
    let digit : is_digit (b'0' + n % 10) ≡ true = ground arith in rw (digit, value)

parse_from-show_from :
    (fuel n : ℕ) (seen : Text) → n < fuel → parse_from 0 (show_from fuel n seen) ≡ parse_from n seen
unfolding show_from
parse_from-show_from zero n seen h = elim h [ ]
parse_from-show_from (suc fuel) n seen h = elim (Bool-cases (ltb n 10)) [
  | inl small ↦ rw small (parse_from-digit 0 n seen (ground arith))
  | inr large ↦ rw large (
      parse_from-show_from fuel (n / 10) _ (ground arith)
      ∙ parse_from-digit (n / 10) n seen (omega arith))
]

-- Every byte that is printed is a digit, and there is at least one.
abbrev pub AreDigits : Text → Type 0
AreDigits s = All (λ c. is_digit c ≡ true) s

show_from-AreDigits :
    (fuel n : ℕ) (seen : Text) → AreDigits seen → AreDigits (show_from fuel n seen)
unfolding show_from
show_from-AreDigits zero n seen h = h
show_from-AreDigits (suc fuel) n seen h = elim (Bool-cases (ltb n 10)) [
  | inl small ↦ rw small (ground arith, h)
  | inr large ↦ rw large (show_from-AreDigits fuel (n / 10) _ (ground arith, h))
]

pub format_int-AreDigits : (n : ℕ) → AreDigits (format_int n)
unfolding format_int
format_int-AreDigits n = show_from-AreDigits (suc n) n [] tt

show_from-ne-nil : (fuel n : ℕ) (c : ℕ) (seen : Text) → show_from fuel n (c ∷ seen) ≢ []
unfolding show_from
show_from-ne-nil zero n c seen h = cc
show_from-ne-nil (suc fuel) n c seen h = elim (Bool-cases (ltb n 10)) [
  | inl small ↦ cc (small)
  | inr large ↦ show_from-ne-nil fuel (n / 10) _ (c ∷ seen) (rw (large) at h)
]

pub format_int-ne-nil : (n : ℕ) → format_int n ≢ []
unfolding format_int show_from
format_int-ne-nil n h = elim (Bool-cases (ltb n 10)) [
  | inl small ↦ cc (small)
  | inr large ↦ show_from-ne-nil n (n / 10) _ [] (rw (large) at h)
]

parse_digits_of_ne-nil : (s : Text) → s ≢ [] → parse_digits s ≡ parse_from 0 s
unfolding parse_digits
parse_digits_of_ne-nil [] h = absurd (h refl)
parse_digits_of_ne-nil (c ∷ s) h = refl

-- What is printed is read back.
pub parse_digits-format_int : (n : ℕ) → parse_digits (format_int n) ≡ some n
unfolding format_int parse_from
parse_digits-format_int n =
    parse_digits_of_ne-nil (format_int n) (format_int-ne-nil n)
    ∙ parse_from-show_from (suc n) n [] (omega arith)

abbrev pub int64_limit : ℕ
int64_limit = 2 ^ 63

abbrev checked : ℕ → (ℕ → ℤ) → Option ℕ → Option ℤ
checked limit f none = none
checked limit f (some n) = if ltb n limit then some (f n) else none

abbrev negate : ℕ → ℤ
negate zero = pos zero
negate (suc n) = negsuc n

-- ParseInt(s, 10, 64): an optional sign, digits, and the range of an int64.
unfoldable pub parse_int : Text → Option ℤ
unfolding parse_digits
parse_int [] = none
parse_int (c ∷ s) =
    if c == b'-'
    then checked (int64_limit + 1) negate (parse_digits s)
    else if c == b'+'
    then checked int64_limit pos (parse_digits s)
    else checked int64_limit pos (parse_digits (c ∷ s))

parse_int_of_AreDigits :
    (s : Text) → AreDigits s → s ≢ [] → parse_int s ≡ checked int64_limit pos (parse_digits s)
unfolding parse_int
parse_int_of_AreDigits [] h n = absurd (n refl)
parse_int_of_AreDigits (c ∷ s) h n =
    let no_minus : (c == b'-') ≡ false = ground (arith, h.0) in
    let no_plus : (c == b'+') ≡ false = ground (arith, h.0) in rw (no_minus, no_plus)

-- A number of an int64 is read back.
pub parse_int-format_int : (n : ℕ) → n < int64_limit → parse_int (format_int n) ≡ some (pos n)
parse_int-format_int n h =
    parse_int_of_AreDigits (format_int n) (format_int-AreDigits n) (format_int-ne-nil n)
    ∙ rw (parse_digits-format_int n, lt→ltb n int64_limit h)
