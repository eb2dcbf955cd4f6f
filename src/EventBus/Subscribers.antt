-- ===== src/EventBus/Subscribers.antt =====
-- Lists of channels without repetitions.
use sharm.Common.{ℕ, ◌≡◌, refl, true, false, ◌||◌, List, [], ◌∷◌, ◌++◌, ◌==◌, nat_eq, arith}
use sharm.EventBus.{mem, remove_first}

abbrev pub IsDistinct : List ℕ → Type 0
IsDistinct [] = Unit
IsDistinct (s ∷ subs) = (mem s subs ≡ false) × IsDistinct subs

-- What is left was there before.
pub mem-remove_first :
    (c ch : ℕ) (subs : List ℕ) → mem c (remove_first ch subs) ≡ true → mem c subs ≡ true
unfolding remove_first
mem-remove_first c ch [] h = h
mem-remove_first c ch (s ∷ subs) h = ground (arith, mem-remove_first c ch subs)

pub mem-remove_first-false :
    (c ch : ℕ) (subs : List ℕ) → mem c subs ≡ false → mem c (remove_first ch subs) ≡ false
unfolding remove_first
mem-remove_first-false c ch [] h = h
mem-remove_first-false c ch (s ∷ subs) h = ground (arith, mem-remove_first-false c ch subs)

pub IsDistinct-remove_first :
    (ch : ℕ) (subs : List ℕ)
    → IsDistinct subs
    → IsDistinct (remove_first ch subs) × (mem ch (remove_first ch subs) ≡ false)
unfolding remove_first
IsDistinct-remove_first ch [] d = (tt, refl)
IsDistinct-remove_first ch (s ∷ subs) d =
    ground (arith, IsDistinct-remove_first ch subs d.1, mem-remove_first-false s ch subs d.0)

pub mem-append : (c ch : ℕ) (subs : List ℕ) → mem c (subs ++ (ch ∷ [])) ≡ mem c subs || ch == c
mem-append c ch [] = ground arith
mem-append c ch (s ∷ subs) = ground (arith, mem-append c ch subs)

pub IsDistinct-append :
    (ch : ℕ) (subs : List ℕ)
    → IsDistinct subs
    → mem ch subs ≡ false
    → IsDistinct (subs ++ (ch ∷ []))
IsDistinct-append ch [] d h = (refl, tt)
IsDistinct-append ch (s ∷ subs) d h =
    (ground (arith, mem-append s ch subs), IsDistinct-append ch subs d.1 (ground arith))
